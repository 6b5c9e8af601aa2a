-- ===== src/Chat/Subscription/Backoff.antt =====
-- How long the chat feed waits after failures in a row
-- (apps/web/src/hooks/use-chat-service-stream.ts).
use streambrew.Base.{
  ℕ, suc, ◌+◌, ◌-◌, ◌*◌, ◌^◌, ◌<◌, min, ◌≡◌, refl, ◌≢◌, sym, subst, Bool, true, false, ◌||◌, List,
  [], ◌∷◌, some, arith, length, ltb, if◌then◌else◌,
}
use streambrew.Chat.Feed.{ErrorCode, overlay_not_found, transport_failed, reducer}
use streambrew.Chat.Subscription.{
  Mode, FailureData, Subscription, failure_code, dispatch, retry_delay, end_with, Signal, failed,
  timer_fired, step, run,
}

-- A subscription fails, and the timer of its retry fires.
pub record Failure : Type 0 where
  pub error : FailureData
  pub failed_at : ℕ
  pub fired_at : ℕ

abbrev pub signals_of : List Failure → List Signal
signals_of [] = []
signals_of (f ∷ fs) = failed f.error f.failed_at ∷ timer_fired f.fired_at ∷ signals_of fs

-- Each subscription, the first opened at the time given, fails within 30 seconds, and none for a link
-- that is not found.
abbrev pub AreQuick : Mode → ℕ → List Failure → Type 0
AreQuick mode at [] = Unit
AreQuick mode at (f ∷ fs) =
    (failure_code f.error mode ≢ overlay_not_found)
    × (f.failed_at - at < 30_000)
    × AreQuick mode f.fired_at fs

-- An open subscription, and the quick failures before it in a row.
pub record Opened (failures : ℕ) (s : Subscription) : Type 0 where
  pub mounted : s.disposed ≡ false
  pub running : s.ended ≡ false
  pub attempt : s.attempt ≡ failures

-- A failure ends the subscription, and a timer waits.
record Waiting (code : ErrorCode) (failures delay : ℕ) (s : Subscription) : Type 0 where
  mounted : s.disposed ≡ false
  attempt : s.attempt ≡ failures
  timer : s.retry_timer ≡ some delay
  shown : s.feed.connection_error ≡ some code

fails :
    (mode : Mode) (error : FailureData) (s : Subscription) (now n : ℕ)
    → Opened n s
    → failure_code error mode ≢ overlay_not_found
    → let quick = ltb (now - s.started_at) 30_000 in
      Waiting
        (failure_code error mode)
        (if quick then suc n else 1)
        (if quick then min (1_000 * 2 ^ n) 30_000 else 1_000)
        (step mode s (failed error now))
unfolding step retry_delay reducer
fails mode error s now n o h =
    let live : (s.disposed || s.ended) ≡ false = ground (arith, o.mounted, o.running) in
    rw (live, step) (by_code (failure_code error mode) h)
  where
    by_code :
        (c : ErrorCode)
        → c ≢ overlay_not_found
        → let quick = ltb (now - s.started_at) 30_000 in
          Waiting c
            (if quick then suc n else 1)
            (if quick then min (1_000 * 2 ^ n) 30_000 else 1_000)
            (end_with c now (dispatch (transport_failed c) (record s { ended = true })))
    by_code overlay_not_found h = absurd (h refl)
    by_code c h = record {
      mounted = o.mounted;
      attempt = ground (arith, o.attempt);
      timer = ground (arith, o.attempt);
      shown = refl;
    }

fires :
    (mode : Mode) (s : Subscription) (now n delay : ℕ) (code : ErrorCode)
    → Waiting code n delay s
    → Opened n (step mode s (timer_fired now)) × ((step mode s (timer_fired now)).started_at ≡ now)
unfolding step
fires mode s now n delay code w =
    rw (w.timer, step) (record { mounted = w.mounted; running = refl; attempt = w.attempt }, refl)

fails_quickly :
    (mode : Mode) (f : Failure) (s : Subscription) (n : ℕ)
    → Opened n s
    → failure_code f.error mode ≢ overlay_not_found
    → f.failed_at - s.started_at < 30_000
    → let next = step mode (step mode s (failed f.error f.failed_at)) (timer_fired f.fired_at) in
      Opened (suc n) next × (next.started_at ≡ f.fired_at)
fails_quickly mode f s n o h q =
    let quick : ltb (f.failed_at - s.started_at) 30_000 ≡ true = ground (arith, q) in
    let waiting = fails mode f.error s f.failed_at n o h in
    fires mode (step mode s (failed f.error f.failed_at)) f.fired_at (suc n)
      (min (1_000 * 2 ^ n) 30_000) (failure_code f.error mode) (rw quick at waiting)

fail_in_a_row :
    (mode : Mode) (fs : List Failure) (s : Subscription) (n : ℕ)
    → Opened n s
    → AreQuick mode s.started_at fs
    → Opened (n + length fs) (run mode s (signals_of fs))
unfolding run
fail_in_a_row mode [] s n o q = let e : n + 0 ≡ n = omega arith in subst (λ m. Opened m s) (sym e) o
fail_in_a_row mode (f ∷ fs) s n o q =
    let next = step mode (step mode s (failed f.error f.failed_at)) (timer_fired f.fired_at) in
    let (o', at) = fails_quickly mode f s n o q.0 q.1 in
    let e : suc n + length fs ≡ n + suc (length fs) = omega arith in
    subst (λ m. Opened m (run mode next (signals_of fs))) e
      (fail_in_a_row mode fs next (suc n) o' (subst (λ t. AreQuick mode t fs) (sym at) q.2))

-- An open subscription without failures before it, and then any number of failures in a row, each
-- within 30 seconds of its opening and none for a link that is not found, with the timer fired after
-- each: a subscription is open again. When that one fails too, the feed shows the code of the failure, and the wait is a second, doubled for each of
-- the failures before it, but at most 30 seconds; where it lived 30 seconds or longer, the wait is one
-- second. Once the timer has fired it is opened again, and the failures are counted on, or from one.
pub retry_backoff :
    (mode : Mode) (s : Subscription) (fs : List Failure) (error : FailureData) (now later : ℕ)
    → Opened 0 s
    → AreQuick mode s.started_at fs
    → failure_code error mode ≢ overlay_not_found
    → let after = run mode s (signals_of fs) in
      let ended = step mode after (failed error now) in
      let again = step mode ended (timer_fired later) in
      let quick = ltb (now - after.started_at) 30_000 in
      Opened (length fs) after
      × (ended.retry_timer ≡ some (if quick then min (1_000 * 2 ^ length fs) 30_000 else 1_000))
      × (ended.feed.connection_error ≡ some (failure_code error mode))
      × Opened (if quick then suc (length fs) else 1) again
      × (again.started_at ≡ later)
retry_backoff mode s fs error now later o q h =
    let after = run mode s (signals_of fs) in
    let quick : Bool = ltb (now - after.started_at) 30_000 in
    let zero_first : 0 + length fs ≡ length fs = omega arith in
    let open_after = subst (λ m. Opened m after) zero_first (fail_in_a_row mode fs s 0 o q) in
    let waiting = fails mode error after now (length fs) open_after h in
    let (o', at) =
      fires mode (step mode after (failed error now)) later (if quick then suc (length fs) else 1)
        (if quick then min (1_000 * 2 ^ length fs) 30_000 else 1_000) (failure_code error mode)
        waiting in
    (open_after, waiting.timer, waiting.shown, o', at)
