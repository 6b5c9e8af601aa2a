-- ===== src/Alerts/Tests.antt =====
-- Examples of the alert overlay (apps/web/src/hooks/use-alert-overlay.ts) and of its player
-- (apps/web/src/components/alert-player-runtime.ts).
use streambrew.Base.{
  map, min, ◌+◌, ◌/◌, ◌≤◌, ◌<◌, ◌≡◌, refl, ◌≢◌, true, false, not, ◌&&◌, List, [], ◌∷◌, ◌++◌, none,
  some, arith, All, length, if◌then◌else◌,
}
use streambrew.Alerts.Source.{
  Signals, settle, active_changed, source_step, source_run, resolve_alert_source_state, can_claim,
  ready_after_settling, can_claim_lem,
}
use streambrew.Alerts.Acknowledge.{
  HeartbeatResult, delivered, another_failure, conflict, Beat, permanent, is_delivered,
  maintain_alert_heartbeat, Round, running, retry_alert_acknowledgement,
}
use streambrew.Alerts.Acknowledge.Heartbeat.{maintain_alert_heartbeat_lem}
use streambrew.Alerts.Acknowledge.Deadline.{retry_ends}
use streambrew.Alerts.Overlay.{
  active, sound_unavailable, audio_blocked, interrupted, State, diagnosed, played, skipped,
  finished, Event, told_finished, told_diagnostic, should_continue, diagnose, step, run,
}
use streambrew.Alerts.Overlay.Once.{Distinct, told_keys, diagnostics_told_once}
use streambrew.Alerts.Overlay.Skipped.{skipped_is_not_told}
use streambrew.Alerts.Player.{World, blocked, idle, is_aborted, start_playback}
use streambrew.Alerts.Player.Effects.{outcomes, actions}
use streambrew.Alerts.Player.Runs.{is_accepted}
use streambrew.Alerts.Player.Finishes.{start_playback_ends_once}

abbrev signals : Signals
signals = record {
  active = none;
  document_visible = true;
  obs_present = true;
  obs_visible = some true;
  settled = true;
}

ready_after_settling_example :
    (resolve_alert_source_state
      (source_run (source_step signals settle) (active_changed false ∷ []))).ready
    ≡ true
ready_after_settling_example = ready_after_settling signals (active_changed false ∷ [])

can_claim_lem_example : can_claim (resolve_alert_source_state signals) ≡ (
    signals.document_visible
    && (elim signals.obs_visible [ none ↦ signals.settled | some v ↦ v ]
        && elim signals.active [ none ↦ signals.settled | some a ↦ a ]))
can_claim_lem_example = can_claim_lem signals refl

abbrev slow_failure : Round
slow_failure = record {
  wanted_before = true;
  call_ms = 4_000;
  call_succeeds = false;
  wanted_after = true;
  wanted_in_delay = true;
  late_ms = 10;
}

retry_ends_example :
    let r =
      retry_alert_acknowledgement
        (some 500)
        1_000
        (slow_failure ∷ slow_failure ∷ slow_failure ∷ []) in
    (r.outcome ≢ running)
    × (length r.attempts ≤ (500 + 249) / 250)
    × All (λ t. t < 1_000 + 500) r.attempts
retry_ends_example =
    retry_ends 500 1_000 (slow_failure ∷ slow_failure ∷ slow_failure ∷ []) (omega arith)

abbrev playing : State
playing = record {
  identity = some (active 1 2);
  playback = some 9;
  server_interrupted = [];
  sent_diagnostics = (9, sound_unavailable) ∷ [];
  interruption_key = 0;
  open_cycle = 0;
}

abbrev diagnoses : List Event
diagnoses =
    diagnosed (some (active 1 2)) 9 audio_blocked false
    ∷ played (some 9)
    ∷ diagnosed (some (active 1 2)) 9 audio_blocked false
    ∷ diagnosed (some (active 1 2)) 9 sound_unavailable false
    ∷ []

-- The first of them is the one that is told.
diagnoses_told : (run playing diagnoses).0 ≡ told_diagnostic 9 audio_blocked ∷ []
unfolding run step diagnose
diagnoses_told = refl

diagnostics_told_once_example :
    Distinct (playing.sent_diagnostics ++ told_keys (run playing diagnoses).0)
diagnostics_told_once_example =
    diagnostics_told_once 9 playing diagnoses refl (refl, (refl, (refl, (refl, tt)))) (refl, tt)

-- The playback is played again, is interrupted twice, and the second interruption is told.
skipped_is_not_told_example :
    let identity = some (active 1 2) in
    let before = (run (step playing skipped).1 (played (some 9) ∷ [])).1 in
    let first = step before (finished identity 9 interrupted) in
    let second = step first.1 (finished identity 9 interrupted) in
    (first.0 ≡ [])
    × (second.0
        ≡ (if should_continue before identity 9 then told_finished 9 interrupted ∷ [] else []))
skipped_is_not_told_example =
    skipped_is_not_told playing (played (some 9) ∷ []) 9 (some (active 1 2)) (some (active 1 2))
      refl (refl, tt)

abbrev world : World
world = record {
  has_image = true;
  has_sound = true;
  has_tts = false;
  image_loads = true;
  sound_loads = true;
  tts_loads = false;
  image_decodes = false;
  on_started_resolves = true;
  sound_result = blocked;
  tts_result = blocked;
  on_finished_resolves = true;
  on_interrupted_resolves = true;
  abort_at = some 6;
}

start_playback_ends_once_example :
    (length (outcomes (start_playback world))
      ≡ (if world.on_started_resolves && not (is_aborted world.abort_at 1) then 1 else 0))
    × (is_accepted idle (actions (start_playback world)) ≡ true)
start_playback_ends_once_example = start_playback_ends_once world

abbrev beat : HeartbeatResult → Beat
beat result = record {
  wanted_before = true;
  result = result;
  wanted_after = true;
  wanted_in_delay = true;
}

maintain_alert_heartbeat_lem_example :
    maintain_alert_heartbeat 5_000
      ((beat delivered ∷ beat another_failure ∷ []) ++ beat conflict ∷ beat delivered ∷ [])
    ≡ (
      permanent,
      map
          (λ x. if is_delivered x.result then 5_000 else min 1_000 5_000)
          (beat delivered ∷ beat another_failure ∷ []),
    )
maintain_alert_heartbeat_lem_example =
    maintain_alert_heartbeat_lem 5_000 (beat delivered ∷ beat another_failure ∷ []) (beat conflict)
      (beat delivered ∷ []) (refl, (refl, tt)) refl refl refl
