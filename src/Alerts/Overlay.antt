-- ===== src/Alerts/Overlay.antt =====
-- The state of the alert overlay (apps/web/src/hooks/use-alert-overlay.ts): the identity under which
-- it plays, the playback, and what it has told the server. A ref and the React state that follows it
-- are one field.
pub mod Once
pub mod Skipped
use streambrew.Base.{
  ℕ, suc, Bool, true, false, not, ◌&&◌, ◌||◌, List, [], ◌∷◌, ◌++◌, Option, none, some, anyb,
  filterb, ◌==◌, if◌then◌else◌,
}

-- AlertOverlayOpen: the player and its generation, or none where another overlay has the claim.
pub data Identity : Type 0 where
  active : ℕ → ℕ → Identity
  standby : Identity

pub data DiagnosticCode : Type 0 where
  image_unavailable sound_unavailable tts_unavailable audio_blocked : DiagnosticCode

pub data FinishOutcome : Type 0 where
  completed interrupted : FinishOutcome

pub record State : Type 0 where
  pub identity : Option Identity
  pub playback : Option ℕ
  pub server_interrupted : List ℕ
  pub sent_diagnostics : List (ℕ × DiagnosticCode)
  pub interruption_key : ℕ
  pub open_cycle : ℕ

abbrev pub code_eq : DiagnosticCode → DiagnosticCode → Bool
code_eq image_unavailable image_unavailable = true
code_eq sound_unavailable sound_unavailable = true
code_eq tts_unavailable tts_unavailable = true
code_eq audio_blocked audio_blocked = true
code_eq _ _ = false

abbrev pub key_eq : ℕ × DiagnosticCode → ℕ × DiagnosticCode → Bool
key_eq (p, c) (q, d) = p == q && code_eq c d

abbrev pub is_playback : Option ℕ → ℕ → Bool
is_playback none p = false
is_playback (some q) p = q == p

abbrev pub same_playback : Option ℕ → Option ℕ → Bool
same_playback none none = true
same_playback (some p) (some q) = p == q
same_playback _ _ = false

abbrev pub includes : List ℕ → ℕ → Bool
includes ps p = anyb (λ q. q == p) ps

abbrev pub is_interrupted : FinishOutcome → Bool
is_interrupted interrupted = true
is_interrupted completed = false

-- `acknowledge` and `remaining`
unfoldable pub resolve_alert_finish_acknowledgement : List ℕ → ℕ → FinishOutcome → Bool × List ℕ
resolve_alert_finish_acknowledgement server_interrupted p outcome =
    if is_interrupted outcome && includes server_interrupted p
    then (false, filterb (λ q. not (q == p)) server_interrupted)
    else (true, server_interrupted)

abbrev pub same_identity : Option Identity → Identity → Bool
same_identity (some (active player generation)) (active player' generation') =
    player == player' && generation == generation'
same_identity _ _ = false

unfoldable pub initial_state : State
initial_state = record {
  identity = none;
  playback = none;
  server_interrupted = [];
  sent_diagnostics = [];
  interruption_key = 0;
  open_cycle = 0;
}

unfoldable pub set_current_playback : Option ℕ → State → State
set_current_playback next s = record s {
  playback = next;
  sent_diagnostics = if same_playback s.playback next then s.sent_diagnostics else [];
}

abbrev pub with_interrupted : Option ℕ → List ℕ → List ℕ
with_interrupted none ps = ps
with_interrupted (some p) ps = if includes ps p then ps else ps ++ p ∷ []

unfoldable pub suppress_server_interrupted_playback : State → State
unfolding set_current_playback
suppress_server_interrupted_playback s =
    set_current_playback none
      (record s { server_interrupted = with_interrupted s.playback s.server_interrupted })

unfoldable pub invalidate_identity : Identity → State → State
unfolding set_current_playback
invalidate_identity failed s =
    if same_identity s.identity failed
    then record (set_current_playback none s) { identity = none; open_cycle = suc s.open_cycle }
    else s

abbrev pub is_active : Option Identity → Bool
is_active (some (active _ _)) = true
is_active _ = false

-- What happens to the overlay. A callback comes with the identity of the render that made it, and that
-- of a diagnostic with whether its signal is aborted.
pub data Event : Type 0 where
  opened : Option Identity → Event
  released : Event
  played : Option ℕ → Event
  skipped : Event
  revoked : Identity → Event
  stream_ended : Identity → Event
  acknowledgement_lost : Identity → Event
  finished : Option Identity → ℕ → FinishOutcome → Event
  finish_acknowledged : ℕ → Event
  diagnosed : Option Identity → ℕ → DiagnosticCode → (aborted : Bool) → Event

-- What the server is told: the first call of a retry loop. The loop calls again where a call fails.
pub data Told : Type 0 where
  told_finished : ℕ → FinishOutcome → Told
  told_diagnostic : ℕ → DiagnosticCode → Told

-- shouldContinue, which the loop tests before its first call: an active identity that is the current
-- one, and the current playback.
abbrev pub should_continue : State → Option Identity → ℕ → Bool
should_continue s none p = false
should_continue s (some identity) p = same_identity s.identity identity && is_playback s.playback p

unfoldable pub finish : Option Identity → ℕ → FinishOutcome → State → List Told × State
unfolding resolve_alert_finish_acknowledgement
finish identity p outcome s =
    let (acknowledge, rest) = resolve_alert_finish_acknowledgement s.server_interrupted p outcome in
    (
      (if acknowledge && should_continue s identity p then told_finished p outcome ∷ [] else []),
      record s { server_interrupted = rest },
    )

unfoldable pub diagnose : Option Identity → ℕ → DiagnosticCode → Bool → State → List Told × State
diagnose identity p code aborted s =
    if is_active identity && is_playback s.playback p
    then (if anyb (key_eq (p, code)) s.sent_diagnostics then ([], s) else (
      (if not aborted && should_continue s identity p then told_diagnostic p code ∷ [] else []),
      record s { sent_diagnostics = s.sent_diagnostics ++ (p, code) ∷ [] },
    ))
    else ([], s)

abbrev pub released_claim : Option Identity → State → State
released_claim none s = s
released_claim (some (active _ _)) s = record (set_current_playback none s) { identity = none }
released_claim (some standby) s = record s { identity = none }

unfoldable pub step : State → Event → List Told × State
unfolding set_current_playback suppress_server_interrupted_playback invalidate_identity finish
    diagnose
step s (opened identity) = ([], record s { identity = identity })
step s released = ([], released_claim s.identity s)
step s (played next) = ([], set_current_playback next s)
step s skipped = (
  [],
  suppress_server_interrupted_playback (record s { interruption_key = suc s.interruption_key }),
)
step s (revoked identity) =
    ([], invalidate_identity identity (suppress_server_interrupted_playback s))
step s (stream_ended identity) = ([], invalidate_identity identity s)
step s (acknowledgement_lost identity) = ([], invalidate_identity identity s)
step s (finished identity p outcome) = finish identity p outcome s
step s (finish_acknowledged p) =
    ([], if is_playback s.playback p then set_current_playback none s else s)
step s (diagnosed identity p code aborted) = diagnose identity p code aborted s

unfoldable pub run : State → List Event → List Told × State
run s [] = ([], s)
run s (e ∷ es) =
    let (told, after) = step s e in let (later, last) = run after es in (told ++ later, last)
