-- ===== src/Alerts/Player/Runs.antt =====
-- A run of the alert player, up to its end (apps/web/src/components/alert-player-runtime.ts).
use streambrew.Base.{
  ℕ, ◌≡◌, ◌∙◌, refl, Bool, true, false, not, ◌&&◌, ◌||◌, List, [], ◌∷◌, ◌++◌, none, arith,
  Bool-cases, inl, inr, if◌then◌else◌, ◌==◌,
}
use streambrew.Alerts.Overlay.{image_unavailable, completed}
use streambrew.Alerts.Player.{
  Stage, idle, preloading, starting, entering, shown, exiting, finishing, Action, preloaded,
  started, entered, leave, exited, reduce_alert_player_stage, AudioKind, sound, tts,
  AudioPlaybackResult, World, Effect, dispatched, on_started, set_image_src, is_aborted, Ran, after,
  image_url, sound_url, tts_url, report_missing_assets, resolve_image_url, heard,
  resolve_audio_diagnostic_code, play_audio_channel, complete, stopped, present_playback,
  run_playback,
}
use streambrew.Alerts.Player.Effects.{
  outcomes, actions, outcomes-append, actions-append, Quiet, Quiet-append, Quiet-if, report-Quiet,
  report_option-Quiet, missing-Quiet,
}

-- The stages as numbers.
abbrev number : Stage → ℕ
number s = elim s [
  | idle ↦ 0
  | preloading ↦ 1
  | starting ↦ 2
  | entering ↦ 3
  | shown ↦ 4
  | exiting ↦ 5
  | finishing ↦ 6
]

-- No action is lost on the stage that it finds.
unfoldable pub is_accepted : Stage → List Action → Bool
is_accepted s [] = true
is_accepted s (a ∷ as') =
    not (number (reduce_alert_player_stage s a) == number s)
    && is_accepted (reduce_alert_player_stage s a) as'

-- A run from a stage on: it tells an end exactly if it is complete, it is complete or aborted if it
-- has started, and its actions fit the stages.
pub record Ended (s : Stage) (r : Ran) : Type 0 where
  pub told : outcomes r.effects ≡ (if r.was_completed then completed ∷ [] else [])
  pub over : (r.was_started && (not r.was_completed && not r.was_aborted)) ≡ false
  pub order : (r.was_completed && not r.was_started) ≡ false
  pub moves : is_accepted s (actions r.effects) ≡ true

stopped-Ended : (s : Stage) (b : Bool) → Ended s (stopped b true)
unfolding outcomes actions is_accepted
stopped-Ended s b = record { told = refl; over = ground arith; order = refl; moves = refl }

Quiet-Ended : (s : Stage) (es : List Effect) (r : Ran) → Quiet es → Ended s r → Ended s (after es r)
Quiet-Ended s es r q e =
    let t = e.told in
    let m = e.moves in
    record {
      told = outcomes-append es r.effects ∙ rw q.no_outcomes t;
      over = e.over;
      order = e.order;
      moves = rw (actions-append es r.effects, q.no_actions) m;
    }

moved-Ended :
    (s t : Stage) (a : Action) (r : Ran)
    → reduce_alert_player_stage s a ≡ t
    → (number t == number s) ≡ false
    → Ended t r
    → Ended s (after (dispatched a ∷ []) r)
unfolding outcomes actions is_accepted
moved-Ended s t a r e n h = record {
  told = h.told;
  over = h.over;
  order = h.order;
  moves = rw (e, n) h.moves;
}

if-Ended : (s : Stage) (b : Bool) (x y : Ran) → Ended s x → Ended s y → Ended s (if b then x else y)
if-Ended s true x y h k = h
if-Ended s false x y h k = k

complete-Ended : (w : World) → Ended finishing (complete w)
unfolding outcomes actions is_accepted reduce_alert_player_stage
complete-Ended w = elim (Bool-cases w.on_finished_resolves) [
  | inl t ↦ record { told = rw t refl; over = refl; order = refl; moves = rw t refl }
  | inr f ↦ record { told = rw f refl; over = refl; order = refl; moves = rw f refl }
]

audio-Quiet :
    (k : AudioKind) (r : AudioPlaybackResult) (b : Bool) → Quiet (play_audio_channel k r b)
unfolding play_audio_channel
audio-Quiet k r b = report_option-Quiet b (resolve_audio_diagnostic_code k (heard b r))

present_playback-Ended : (w : World) → Ended entering (present_playback w)
unfolding present_playback reduce_alert_player_stage
present_playback-Ended w =
    let a : ℕ → Bool = λ k. is_aborted w.abort_at k in
    let exit : Ran =
      after (dispatched exited ∷ []) (if a 8 then stopped true true else complete w) in
    let leaving : Ran = after (dispatched leave ∷ []) (if a 7 then stopped true true else exit) in
    let first : List Effect =
      if sound_url w then play_audio_channel sound w.sound_result (a 4) else [] in
    let second : List Effect =
      (if tts_url w && not (a 4) then play_audio_channel tts w.tts_result (a 5) else []) in
    let heard_out : Ran = if a 6 then stopped true true else leaving in
    let exit_ended : Ended exiting exit =
      moved-Ended exiting finishing exited (if a 8 then stopped true true else complete w) refl refl
        (if-Ended finishing (a 8) (stopped true true) (complete w) (stopped-Ended finishing true)
          (complete-Ended w)) in
    let leaving_ended : Ended shown leaving =
      moved-Ended shown exiting leave (if a 7 then stopped true true else exit) refl refl
        (if-Ended exiting (a 7) (stopped true true) exit (stopped-Ended exiting true) exit_ended) in
    let heard_ended : Ended shown (after (first ++ second) heard_out) =
      Quiet-Ended shown (first ++ second) heard_out
        (Quiet-append first second
          (Quiet-if (sound_url w) (play_audio_channel sound w.sound_result (a 4))
            (audio-Quiet sound w.sound_result (a 4)))
          (Quiet-if (tts_url w && not (a 4)) (play_audio_channel tts w.tts_result (a 5))
            (audio-Quiet tts w.tts_result (a 5))))
        (if-Ended shown (a 6) (stopped true true) leaving (stopped-Ended shown true)
          leaving_ended) in
    if-Ended entering (a 3) (stopped true true)
      (after (dispatched entered ∷ (first ++ second)) heard_out) (stopped-Ended entering true)
      (moved-Ended entering shown entered (after (first ++ second) heard_out) refl refl heard_ended)

resolve-Quiet : (w : World) → Quiet (resolve_image_url w).1
unfolding resolve_image_url
resolve-Quiet w = elim (Bool-cases (image_url w)) [
  | inr f ↦ rw f (report_option-Quiet true none)
  | inl t ↦ elim (Bool-cases (w.image_decodes || is_aborted w.abort_at 1)) [
    | inl u ↦ rw (t, u) (report_option-Quiet true none)
    | inr u ↦ rw (t, u) (report-Quiet (is_aborted w.abort_at 1) image_unavailable)
  ]
]

not_started-Ended : (s : Stage) (b : Bool) → Ended s (stopped false b)
unfolding outcomes actions is_accepted
not_started-Ended s b = record { told = refl; over = refl; order = refl; moves = refl }

call-Quiet : Quiet (on_started ∷ [])
unfolding outcomes actions
call-Quiet = record { no_outcomes = refl; no_actions = refl }

image-Quiet : (b : Bool) → Quiet (set_image_src b ∷ [])
unfolding outcomes actions
image-Quiet b = record { no_outcomes = refl; no_actions = refl }

pub run_playback-Ended : (w : World) → Ended preloading (run_playback w)
unfolding run_playback reduce_alert_player_stage
run_playback-Ended w =
    let a : ℕ → Bool = λ k. is_aborted w.abort_at k in
    let image : Bool = (resolve_image_url w).0 in
    let shown_run : Ran = after (dispatched started ∷ []) (present_playback w) in
    let presented : Ran = after (set_image_src image ∷ []) shown_run in
    let called : Ran =
      (if not w.on_started_resolves
        then stopped false (a 2)
        else if a 2
        then stopped true true
        else presented) in
    let loaded : Ran = after (dispatched preloaded ∷ on_started ∷ []) called in
    Quiet-Ended preloading (report_missing_assets w ++ (resolve_image_url w).1)
      (if a 1 then stopped false true else loaded)
      (Quiet-append (report_missing_assets w) (resolve_image_url w).1 (missing-Quiet w)
        (resolve-Quiet w))
      (if-Ended preloading (a 1) (stopped false true) loaded (stopped-Ended preloading false) (
        moved-Ended preloading starting preloaded (after (on_started ∷ []) called) refl refl (
          Quiet-Ended starting (on_started ∷ []) called call-Quiet (
            if-Ended starting (not w.on_started_resolves) (stopped false (a 2))
              (if a 2 then stopped true true else presented) (not_started-Ended starting (a 2))
              (if-Ended starting (a 2) (stopped true true) presented (stopped-Ended starting true) (
                Quiet-Ended starting (set_image_src image ∷ []) shown_run (image-Quiet image) (
                  moved-Ended starting entering started (present_playback w) refl refl
                    (present_playback-Ended w))))))))
