-- ===== src/Alerts/Acknowledge/Deadline.antt =====
-- The retry loop under a deadline (apps/web/src/hooks/use-alert-overlay.ts): it ends, after a bounded
-- number of attempts, none of which begins past the deadline.
use streambrew.Base.{
  ℕ, zero, suc, ◌+◌, ◌-◌, ◌*◌, ◌/◌, ◌≤◌, ◌<◌, min, ◌≡◌, refl, ◌≢◌, ◌⊎◌, inl, inr, Bool, true, false,
  not, List, [], ◌∷◌, some, arith, length, All, leb, if◌then◌else◌,
}
use streambrew.Alerts.Acknowledge.{
  acknowledgement_attempt_timeout_ms, Round, attempt_acknowledgement, Outcome, acknowledged,
  aborted, timed_out, running, Retried, stop, began, retry, retry_alert_acknowledgement,
}

-- What holds of a run over some rounds, with a budget of attempts: each attempt begins before the
-- deadline, they are no more than the budget, and only a run of few rounds is unfinished.
record Ends (deadline budget : ℕ) (rs : List Round) (x : Retried) : Type 0 where
  pub in_time : All (λ t. t < deadline) x.attempts
  pub few : length x.attempts ≤ budget
  pub over : (x.outcome ≢ running) ⊎ (length rs ≤ budget)

stop-Ends :
    (deadline budget : ℕ) (rs : List Round) (o : Outcome)
    → o ≢ running
    → Ends deadline budget rs (stop o)
stop-Ends deadline budget rs o n = record { in_time = tt; few = omega arith; over = inl n }

-- After an attempt that began in time.
began-Ends :
    (deadline now budget : ℕ) (r : Round) (rs : List Round) (x : Retried)
    → now < deadline
    → Ends deadline budget rs x
    → Ends deadline (suc budget) (r ∷ rs) (began now x)
began-Ends deadline now budget r rs x h e =
    let few = e.few in
    record {
      in_time = (h, e.in_time);
      few = omega arith;
      over = elim e.over [ inl n ↦ inl n | inr l ↦ inr (omega arith) ];
    }

if-Ends :
    (deadline budget : ℕ) (rs : List Round) (b : Bool) (x y : Retried)
    → (b ≡ true → Ends deadline budget rs x)
    → (b ≡ false → Ends deadline budget rs y)
    → Ends deadline budget rs (if b then x else y)
if-Ends deadline budget rs true x y h k = h refl
if-Ends deadline budget rs false x y h k = k refl

retry-Ends :
    (deadline now wait budget : ℕ) (rs : List Round)
    → 250 ≤ wait
    → deadline - now ≤ 250 * budget
    → Ends deadline budget rs (retry (some deadline) now wait rs)
unfolding retry
retry-Ends deadline now wait budget [] w h = record {
  in_time = tt;
  few = omega arith;
  over = inr (omega arith);
}
retry-Ends deadline now wait zero (r ∷ rs) w h =
    if-Ends deadline 0 (r ∷ rs) (not r.wanted_before) _ _
      (λ _. stop-Ends deadline 0 (r ∷ rs) aborted (λ q. cc))
      λ _.
        if-Ends deadline 0 (r ∷ rs) (leb deadline now) _ _
          (λ _. stop-Ends deadline 0 (r ∷ rs) timed_out (λ q. cc)) (λ q. absurd (ground arith))
retry-Ends deadline now wait (suc budget) (r ∷ rs) w h =
    let took : ℕ =
      (attempt_acknowledgement (min acknowledgement_attempt_timeout_ms (deadline - now)) r).0 in
    let after : ℕ = now + took in
    let ih =
      retry-Ends deadline (after + min wait (deadline - after) + r.late_ms) (min (wait * 2) 5_000)
        budget rs (omega arith) (omega arith) in
    if-Ends deadline (suc budget) (r ∷ rs) (not r.wanted_before) _ _
      (λ _. stop-Ends deadline (suc budget) (r ∷ rs) aborted (λ q. cc))
      λ _.
        if-Ends deadline (suc budget) (r ∷ rs) (leb deadline now) _ _
          (λ _. stop-Ends deadline (suc budget) (r ∷ rs) timed_out (λ q. cc))
          λ late. began-Ends deadline now budget r rs _ (ground arith) (
            if-Ends deadline budget rs _ _ _
              (λ _. stop-Ends deadline budget rs acknowledged (λ q. cc))
              λ _.
                if-Ends deadline budget rs (not r.wanted_after) _ _
                  (λ _. stop-Ends deadline budget rs aborted (λ q. cc))
                  λ _.
                    if-Ends deadline budget rs (leb deadline after) _ _
                      (λ _. stop-Ends deadline budget rs timed_out (λ q. cc))
                      λ _.
                        if-Ends deadline budget rs (not r.wanted_in_delay) _ _
                          (λ _. stop-Ends deadline budget rs aborted (λ q. cc)) (λ _. ih))

-- With a time limit the loop ends: over more rounds than one for each 250 ms of the limit, rounded
-- up, it is not running any more. It makes at most that many attempts, and none begins once the
-- limit has passed, however long the calls take and however late the timers are.
pub retry_ends :
    (timeout_ms now : ℕ) (rs : List Round)
    → (timeout_ms + 249) / 250 < length rs
    → let r = retry_alert_acknowledgement (some timeout_ms) now rs in
      (r.outcome ≢ running)
      × (length r.attempts ≤ (timeout_ms + 249) / 250)
      × All (λ t. t < now + timeout_ms) r.attempts
unfolding retry_alert_acknowledgement
retry_ends timeout_ms now rs h =
    let e =
      retry-Ends (now + timeout_ms) now 250 ((timeout_ms + 249) / 250) rs (omega arith)
        (omega arith) in
    (elim e.over [ inl n ↦ n | inr l ↦ absurd (omega (arith, h, l)) ], e.few, e.in_time)
