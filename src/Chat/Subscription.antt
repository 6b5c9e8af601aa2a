-- ===== src/Chat/Subscription.antt =====
-- The subscription of `useChatServiceStream` (apps/web/src/hooks/use-chat-service-stream.ts): how it
-- ends, and when it is opened again. Of several subscriptions the model follows the one opened last;
-- those before it have ended. Times are milliseconds of `Date.now()`, which is taken not to go back.
pub mod Retry
pub mod Backoff
use streambrew.Base.{
  ℕ, zero, suc, ◌+◌, ◌-◌, ◌*◌, ◌^◌, ◌≤◌, ◌<◌, min, ◌≡◌, refl, ◌≢◌, ◌⊎◌, inl, inr, Bool, true, false,
  ◌||◌, List, [], ◌∷◌, Option, none, some, arith, leb, Bool-cases, if◌then◌else◌,
}
use streambrew.Chat.Feed.{
  State, Event, ErrorCode, configuration_unavailable, overlay_not_found, stream_unavailable,
  transport_unavailable, unauthorized, Action, connected, transport_failed, event, reducer,
}

pub data Mode : Type 0 where
  editor overlay : Mode

-- `error?.data?.code`, of which two values are told apart.
pub data FailureData : Type 0 where
  unauthorized_code not_found_code : FailureData
  another : FailureData

abbrev pub reconnect_initial_delay_ms : ℕ
reconnect_initial_delay_ms = 1_000

abbrev pub reconnect_max_delay_ms : ℕ
reconnect_max_delay_ms = 30_000

abbrev pub reconnect_stable_after_ms : ℕ
reconnect_stable_after_ms = 30_000

abbrev pub failure_code : FailureData → Mode → ErrorCode
failure_code unauthorized_code mode = unauthorized
failure_code not_found_code overlay = overlay_not_found
failure_code _ _ = transport_unavailable

pub record Subscription : Type 0 where
  pub feed : State
  pub disposed : Bool
  pub ended : Bool
  pub attempt : ℕ
  pub started_at : ℕ
  pub retry_timer : Option ℕ

abbrev pub dispatch : Action → Subscription → Subscription
dispatch a s = record s { feed = reducer s.feed a }

abbrev pub subscribe : ℕ → Subscription → Subscription
subscribe now s = record s { started_at = now; ended = false; retry_timer = none }

unfoldable pub retry_delay : ℕ → ℕ
retry_delay attempt = min (reconnect_initial_delay_ms * 2 ^ attempt) reconnect_max_delay_ms

-- The end of a subscription behind its guard, for each code.
abbrev pub end_with : ErrorCode → ℕ → Subscription → Subscription
end_with overlay_not_found now s = s
end_with _ now s =
    let attempt : ℕ =
      (if leb reconnect_stable_after_ms (now - s.started_at) then 0 else s.attempt) in
    record s { attempt = attempt + 1; retry_timer = some (retry_delay attempt) }

abbrev pub end_subscription : Mode → FailureData → ℕ → Subscription → Subscription
end_subscription mode error now s =
    if s.disposed || s.ended
    then s
    else end_with (failure_code error mode) now
        (dispatch (transport_failed (failure_code error mode)) (record s { ended = true }))

pub data Signal : Type 0 where
  started : Signal
  received : Event → Signal
  reconnecting : Signal
  failed : FailureData → (now : ℕ) → Signal
  completed : (now : ℕ) → Signal
  timer_fired : (now : ℕ) → Signal
  unmounted : Signal

abbrev pub fire : Option ℕ → ℕ → Subscription → Subscription
fire none now s = s
fire (some delay) now s = subscribe now s

unfoldable pub step : Mode → Subscription → Signal → Subscription
step mode s started = dispatch connected s
step mode s (received e) = dispatch (event e) s
step mode s reconnecting = dispatch (transport_failed transport_unavailable) s
step mode s (failed error now) = end_subscription mode error now s
step mode s (completed now) = end_subscription mode another now s
step mode s (timer_fired now) = fire s.retry_timer now s
step mode s unmounted = record s { disposed = true; retry_timer = none }

unfoldable pub run : Mode → Subscription → List Signal → Subscription
run mode s [] = s
run mode s (x ∷ xs) = run mode (step mode s x) xs
