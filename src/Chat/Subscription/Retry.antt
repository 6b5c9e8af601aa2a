-- ===== src/Chat/Subscription/Retry.antt =====
-- When the chat feed retries (apps/web/src/hooks/use-chat-service-stream.ts), how long it waits, and
-- what stops it.
use native.Mathlib.Nat.{pow-suc}
use streambrew.Base.{
  Bool, leb, if◌then◌else◌, ◌∙◌, ℕ, zero, suc, ◌-◌, ◌^◌, ◌≤◌, ◌≡◌, refl, inl, inr, true, false,
  ◌||◌, List, [], ◌∷◌, Option, none, some, arith, Bool-cases, if◌then◌else◌,
}
use streambrew.Chat.Feed.{ErrorCode, overlay_not_found, transport_failed, reducer}
use streambrew.Chat.Subscription.{
  reconnect_stable_after_ms, Mode, overlay, FailureData, not_found_code, another, Subscription,
  failure_code, dispatch, retry_delay, end_with, end_subscription, Signal, started, received,
  reconnecting, failed, completed, timer_fired, unmounted, fire, step, run,
}

-- A timer waits only after an end and before the unmount, for 1 to 30 seconds.
abbrev pub Waits : Option ℕ → Bool → Bool → Type 0
Waits none ended disposed = Unit
Waits (some delay) ended disposed =
    ((ended ≡ true) × (disposed ≡ false)) × ((1_000 ≤ delay) × (delay ≤ 30_000))

pub record IsValid (s : Subscription) : Type 0 where
  pub waits : Waits s.retry_timer s.ended s.disposed

Waits-ended : (t : Option ℕ) (e d : Bool) → Waits t e d → Waits t true d
Waits-ended none e d w = tt
Waits-ended (some delay) e d w = ((refl, w.0.1), w.1)

pow_pos : (n : ℕ) → 1 ≤ 2 ^ n
pow_pos zero = omega arith
pow_pos (suc n) = rw pow-suc (omega (arith, pow_pos n))

retry_delay_bounds : (n : ℕ) → (1_000 ≤ retry_delay n) × (retry_delay n ≤ 30_000)
unfolding retry_delay
retry_delay_bounds n = omega (arith, pow_pos n)

end_subscription-IsValid :
    (mode : Mode) (error : FailureData) (now : ℕ) (s : Subscription)
    → IsValid s
    → IsValid (end_subscription mode error now s)
end_subscription-IsValid mode error now s h = elim (Bool-cases (s.disposed || s.ended)) [
  | inl e ↦ rw e h
  | inr e ↦ rw e (ends (failure_code error mode) (ground arith))
]
  where
    ends :
        (c : ErrorCode)
        → s.disposed ≡ false
        → IsValid (end_with c now (dispatch (transport_failed c) (record s { ended = true })))
    ends overlay_not_found d = record {
      waits = Waits-ended s.retry_timer s.ended s.disposed h.waits;
    }
    ends c d = record {
      waits = (
        (refl, d),
        retry_delay_bounds
            (if leb reconnect_stable_after_ms (now - s.started_at) then 0 else s.attempt),
      );
    }

fire-IsValid : (t : Option ℕ) (now : ℕ) (s : Subscription) → IsValid s → IsValid (fire t now s)
fire-IsValid none now s h = h
fire-IsValid (some d) now s h = record { waits = tt }

step-IsValid : (mode : Mode) (s : Subscription) (x : Signal) → IsValid s → IsValid (step mode s x)
unfolding step
step-IsValid mode s started h = record { waits = h.waits }
step-IsValid mode s (received e) h = record { waits = h.waits }
step-IsValid mode s reconnecting h = record { waits = h.waits }
step-IsValid mode s (failed error now) h = end_subscription-IsValid mode error now s h
step-IsValid mode s (completed now) h = end_subscription-IsValid mode another now s h
step-IsValid mode s (timer_fired now) h = fire-IsValid s.retry_timer now s h
step-IsValid mode s unmounted h = record { waits = tt }

-- From a state that is valid so, whatever happens, a retry waits only when the subscription has
-- ended and the page still shows the feed, and its delay lies between 1 and 30 seconds.
pub signals-IsValid :
    (mode : Mode) (s : Subscription) (xs : List Signal) → IsValid s → IsValid (run mode s xs)
unfolding run
signals-IsValid mode s [] h = h
signals-IsValid mode s (x ∷ xs) h =
    signals-IsValid mode (step mode s x) xs (step-IsValid mode s x h)

-- Nothing can open a subscription again.
abbrev Stopped : Subscription → Type 0
Stopped s = (s.retry_timer ≡ none) × ((s.disposed || s.ended) ≡ true)

fire-Stopped :
    (t : Option ℕ) (now : ℕ) (s : Subscription)
    → t ≡ none
    → Stopped s
    → Stopped (fire t now s) × ((fire t now s).started_at ≡ s.started_at)
fire-Stopped none now s e h = (h, refl)
fire-Stopped (some d) now s e h = absurd (cc)

step-Stopped :
    (mode : Mode) (s : Subscription) (x : Signal)
    → Stopped s
    → Stopped (step mode s x) × ((step mode s x).started_at ≡ s.started_at)
unfolding step
step-Stopped mode s started h = (h, refl)
step-Stopped mode s (received e) h = (h, refl)
step-Stopped mode s reconnecting h = (h, refl)
step-Stopped mode s (failed error now) h = rw (h.1, step) (h, refl)
step-Stopped mode s (completed now) h = rw (h.1, step) (h, refl)
step-Stopped mode s (timer_fired now) h = fire-Stopped s.retry_timer now s h.0 h
step-Stopped mode s unmounted h = ((refl, refl), refl)

run-Stopped :
    (mode : Mode) (s : Subscription) (xs : List Signal)
    → Stopped s
    → ((run mode s xs).retry_timer ≡ none) × ((run mode s xs).started_at ≡ s.started_at)
unfolding run
run-Stopped mode s [] h = (h.0, refl)
run-Stopped mode s (x ∷ xs) h =
    let (k, same) = step-Stopped mode s x h in
    let (t, later) = run-Stopped mode (step mode s x) xs k in (t, later ∙ same)

-- After the unmount no retry is ever scheduled and no subscription is opened, whatever signals come.
pub unmounted_stops :
    (mode : Mode) (s : Subscription) (xs : List Signal)
    → ((run mode (step mode s unmounted) xs).retry_timer ≡ none)
      × ((run mode (step mode s unmounted) xs).started_at ≡ s.started_at)
unfolding step
unmounted_stops mode s xs = run-Stopped mode (step mode s unmounted) xs (refl, refl)

-- When a live overlay subscription (not disposed, not ended, with no timer) fails because its link is
-- not found, the feed shows that, and from then on no retry is ever scheduled and no subscription is
-- opened, whatever signals come.
pub revoked_link_stops :
    (s : Subscription) (now : ℕ) (xs : List Signal)
    → s.disposed ≡ false
    → s.ended ≡ false
    → s.retry_timer ≡ none
    → let revoked = step overlay s (failed not_found_code now) in
      (revoked.feed.connection_error ≡ some overlay_not_found)
      × ((run overlay revoked xs).retry_timer ≡ none)
      × ((run overlay revoked xs).started_at ≡ s.started_at)
unfolding step reducer
revoked_link_stops s now xs d e t =
    let k : Stopped (step overlay s (failed not_found_code now)) = ground arith in
    let (a, b) = run-Stopped overlay (step overlay s (failed not_found_code now)) xs k in
    (ground arith, a, b ∙ ground arith)
