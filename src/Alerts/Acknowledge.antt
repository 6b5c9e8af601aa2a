-- ===== src/Alerts/Acknowledge.antt =====
-- The retry loops of acknowledgements and heartbeats (apps/web/src/hooks/use-alert-overlay.ts). What
-- the world does in a round is an input: whether the operation is still wanted when the loop looks,
-- how long the call takes and how it ends, and by how much the timers are late.
pub mod Deadline
pub mod Heartbeat
use streambrew.Base.{
  ℕ, zero, suc, ◌+◌, ◌-◌, ◌*◌, min, Bool, true, false, not, ◌&&◌, List, [], ◌∷◌, Option, none, some,
  leb, ltb, if◌then◌else◌,
}

abbrev pub acknowledgement_attempt_timeout_ms : ℕ
acknowledgement_attempt_timeout_ms = 5_000

abbrev pub heartbeat_failure_retry_ms : ℕ
heartbeat_failure_retry_ms = 1_000

abbrev pub start_acknowledgement_timeout_ms : ℕ
start_acknowledgement_timeout_ms = 15_000

abbrev pub diagnostic_acknowledgement_timeout_ms : ℕ
diagnostic_acknowledgement_timeout_ms = 15_000

abbrev pub finish_acknowledgement_timeout_ms : ℕ
finish_acknowledgement_timeout_ms = 110_000

-- One round: `wanted` is `!signal.aborted && shouldContinue()` before the attempt, after a failed
-- one, and, for the signal alone, through the delay.
pub record Round : Type 0 where
  pub wanted_before : Bool
  pub call_ms : ℕ
  pub call_succeeds : Bool
  pub wanted_after : Bool
  pub wanted_in_delay : Bool
  pub late_ms : ℕ

-- `attemptAcknowledgement` under its timeout: the time that it takes, and whether it succeeds.
abbrev pub attempt_acknowledgement : ℕ → Round → ℕ × Bool
attempt_acknowledgement timeout_ms r =
    if ltb r.call_ms timeout_ms then (r.call_ms, r.call_succeeds) else (timeout_ms, false)

pub data Outcome : Type 0 where
  acknowledged aborted timed_out running : Outcome

-- What the loop has come to, and the times at which it began its attempts. `running` stands for a
-- loop that goes on after the rounds given.
pub record Retried : Type 0 where
  pub outcome : Outcome
  pub attempts : List ℕ

abbrev pub stop : Outcome → Retried
stop o = record { outcome = o; attempts = [] }

abbrev pub began : ℕ → Retried → Retried
began now r = record r { attempts = now ∷ r.attempts }

abbrev pub remaining : Option ℕ → ℕ → ℕ → ℕ
remaining none now otherwise = otherwise
remaining (some deadline) now otherwise = deadline - now

-- deadline !== undefined && remaining <= 0
abbrev pub is_past : Option ℕ → ℕ → Bool
is_past none now = false
is_past (some deadline) now = leb deadline now

unfoldable pub retry : Option ℕ → ℕ → ℕ → List Round → Retried
retry deadline now retry_delay_ms [] = stop running
retry deadline now retry_delay_ms (r ∷ rs) =
    let (took, done) =
      attempt_acknowledgement
        (min acknowledgement_attempt_timeout_ms
          (remaining deadline now acknowledgement_attempt_timeout_ms))
        r in
    let after : ℕ = now + took in
    let wait : ℕ = min retry_delay_ms (remaining deadline after retry_delay_ms) in
    let again = retry deadline (after + wait + r.late_ms) (min (retry_delay_ms * 2) 5_000) rs in
    if not r.wanted_before
    then stop aborted
    else if is_past deadline now
    then stop timed_out
    else began now (
        if done
        then stop acknowledged
        else if not r.wanted_after
        then stop aborted
        else if is_past deadline after
        then stop timed_out
        else if not r.wanted_in_delay
        then stop aborted
        else again)

unfoldable pub retry_alert_acknowledgement : Option ℕ → ℕ → List Round → Retried
unfolding retry
retry_alert_acknowledgement none now rs = retry none now 250 rs
retry_alert_acknowledgement (some timeout_ms) now rs = retry (some (now + timeout_ms)) now 250 rs

-- The codes of a failed heartbeat; `isPermanentAlertHeartbeatError` tells three of them apart.
pub data HeartbeatResult : Type 0 where
  delivered bad_request not_found conflict another_failure : HeartbeatResult

abbrev pub is_permanent_alert_heartbeat_error : HeartbeatResult → Bool
is_permanent_alert_heartbeat_error bad_request = true
is_permanent_alert_heartbeat_error not_found = true
is_permanent_alert_heartbeat_error conflict = true
is_permanent_alert_heartbeat_error _ = false

pub record Beat : Type 0 where
  pub wanted_before : Bool
  pub result : HeartbeatResult
  pub wanted_after : Bool
  pub wanted_in_delay : Bool

pub data HeartbeatEnd : Type 0 where
  stopped permanent beating : HeartbeatEnd

abbrev pub is_delivered : HeartbeatResult → Bool
is_delivered delivered = true
is_delivered _ = false

-- `maintainAlertHeartbeat`: how it ends, and the delays after its attempts.
unfoldable pub maintain_alert_heartbeat : ℕ → List Beat → HeartbeatEnd × List ℕ
maintain_alert_heartbeat interval_ms [] = (beating, [])
maintain_alert_heartbeat interval_ms (b ∷ bs) =
    let rest = maintain_alert_heartbeat interval_ms bs in
    let pause : ℕ =
      (if is_delivered b.result then interval_ms else min heartbeat_failure_retry_ms interval_ms) in
    if not b.wanted_before
    then (stopped, [])
    else if not (is_delivered b.result) && not b.wanted_after
    then (stopped, [])
    else if is_permanent_alert_heartbeat_error b.result
    then (permanent, [])
    else if not b.wanted_in_delay
    then (stopped, pause ∷ [])
    else (rest.0, pause ∷ rest.1)
