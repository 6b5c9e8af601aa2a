-- ===== src/Alerts/Player.antt =====
-- The player of an alert (apps/web/src/components/alert-player-runtime.ts): its stages, and one run of
-- `startPlayback` up to the end of its `finally`. The awaits of a run are numbered in their order, and
-- the abort of its signal is given by the first await at whose end it has come. What the browser and
-- the callbacks answer is an input.
pub mod Effects
pub mod Runs
pub mod Finishes
use streambrew.Base.{
  ℕ, Bool, true, false, not, ◌&&◌, ◌||◌, List, [], ◌∷◌, ◌++◌, Option, none, some, leb,
  if◌then◌else◌,
}
use streambrew.Alerts.Overlay.{
  DiagnosticCode, image_unavailable, sound_unavailable, tts_unavailable, audio_blocked,
  FinishOutcome, completed, interrupted,
}

pub data Stage : Type 0 where
  idle preloading starting entering shown exiting finishing : Stage

pub data Action : Type 0 where
  begin preloaded started entered leave exited finished reset : Action

unfoldable pub reduce_alert_player_stage : Stage → Action → Stage
reduce_alert_player_stage stage begin = preloading
reduce_alert_player_stage preloading preloaded = starting
reduce_alert_player_stage starting started = entering
reduce_alert_player_stage entering entered = shown
reduce_alert_player_stage entering leave = exiting
reduce_alert_player_stage shown leave = exiting
reduce_alert_player_stage exiting exited = finishing
reduce_alert_player_stage finishing finished = idle
reduce_alert_player_stage stage reset = idle
reduce_alert_player_stage stage action = stage

pub data AudioPlaybackResult : Type 0 where
  played unavailable blocked aborted : AudioPlaybackResult

pub data AudioKind : Type 0 where
  sound tts : AudioKind

unfoldable pub resolve_audio_diagnostic_code :
    AudioKind → AudioPlaybackResult → Option DiagnosticCode
resolve_audio_diagnostic_code kind blocked = some audio_blocked
resolve_audio_diagnostic_code sound unavailable = some sound_unavailable
resolve_audio_diagnostic_code tts unavailable = some tts_unavailable
resolve_audio_diagnostic_code kind result = none

-- Which assets the playback has, which of them load, which an abort before their end prevents, and what
-- comes of the rest of the run.
-- `abort_at` is the await with which the abort comes, if one comes.
pub record World : Type 0 where
  pub has_image : Bool
  pub has_sound : Bool
  pub has_tts : Bool
  pub image_loads : Bool
  pub sound_loads : Bool
  pub tts_loads : Bool
  pub image_decodes : Bool
  pub on_started_resolves : Bool
  pub sound_result : AudioPlaybackResult
  pub tts_result : AudioPlaybackResult
  pub on_finished_resolves : Bool
  pub on_interrupted_resolves : Bool
  pub abort_at : Option ℕ

pub data Asset : Type 0 where
  image_asset sound_asset tts_asset : Asset

pub data Effect : Type 0 where
  dispatched : Action → Effect
  on_diagnostic : DiagnosticCode → Effect
  on_started : Effect
  set_image_src : Bool → Effect
  on_finished : FinishOutcome → Effect
  revoked : Asset → Effect

-- signal.aborted, after the await of that number
abbrev pub is_aborted : Option ℕ → ℕ → Bool
is_aborted none k = false
is_aborted (some a) k = leb a k

-- A run so far: what it did, the flags that it set, and whether its signal is aborted at its end.
pub record Ran : Type 0 where
  pub effects : List Effect
  pub was_started : Bool
  pub was_completed : Bool
  pub was_aborted : Bool

abbrev pub after : List Effect → Ran → Ran
after es r = record r { effects = es ++ r.effects }

abbrev pub report : Bool → DiagnosticCode → List Effect
report true code = []
report false code = on_diagnostic code ∷ []

abbrev pub report_option : Bool → Option DiagnosticCode → List Effect
report_option is_off none = []
report_option is_off (some code) = report is_off code

-- `loadAssets` gives a URL for each asset that has loaded, before an abort or without one.
abbrev pub image_url : World → Bool
image_url w = w.has_image && w.image_loads

abbrev pub sound_url : World → Bool
sound_url w = w.has_sound && w.sound_loads

abbrev pub tts_url : World → Bool
tts_url w = w.has_tts && w.tts_loads

unfoldable pub report_missing_assets : World → List Effect
report_missing_assets w =
    let off : Bool = is_aborted w.abort_at 0 in
    (if w.has_image && not (image_url w) then report off image_unavailable else [])
    ++ ((if w.has_sound && not (sound_url w) then report off sound_unavailable else [])
        ++ (if w.has_tts && not (tts_url w) then report off tts_unavailable else []))

-- The image to show, and what is reported.
unfoldable pub resolve_image_url : World → Bool × List Effect
resolve_image_url w =
    if not (image_url w)
    then (false, [])
    else if w.image_decodes || is_aborted w.abort_at 1
    then (true, [])
    else (false, report (is_aborted w.abort_at 1) image_unavailable)

abbrev pub heard : Bool → AudioPlaybackResult → AudioPlaybackResult
heard off result = if off then aborted else result

unfoldable pub play_audio_channel : AudioKind → AudioPlaybackResult → Bool → List Effect
unfolding resolve_audio_diagnostic_code
play_audio_channel kind result off =
    report_option off (resolve_audio_diagnostic_code kind (heard off result))

-- From `onFinished` on. The end of a run tests the signal again.
abbrev pub complete : World → Ran
complete w = record {
  effects =
      on_finished completed ∷ (if w.on_finished_resolves then dispatched finished ∷ [] else []);
  was_started = true;
  was_completed = true;
  was_aborted = is_aborted w.abort_at 9;
}

abbrev pub stopped : Bool → Bool → Ran
stopped was_started was_aborted = record {
  effects = [];
  was_started = was_started;
  was_completed = false;
  was_aborted = was_aborted;
}

-- `presentPlayback` and what follows it.
unfoldable pub present_playback : World → Ran
unfolding play_audio_channel
present_playback w =
    if is_aborted w.abort_at 3
    then stopped true true
    else after
        (dispatched entered
          ∷ ((if sound_url w
                then play_audio_channel sound w.sound_result (is_aborted w.abort_at 4)
                else [])
              ++ (if tts_url w && not (is_aborted w.abort_at 4)
                  then play_audio_channel tts w.tts_result (is_aborted w.abort_at 5)
                  else [])))
        (if is_aborted w.abort_at 6
          then stopped true true
          else after (dispatched leave ∷ []) (
              if is_aborted w.abort_at 7
              then stopped true true
              else after (dispatched exited ∷ [])
                  (if is_aborted w.abort_at 8 then stopped true true else complete w)))

unfoldable pub run_playback : World → Ran
unfolding report_missing_assets resolve_image_url present_playback
run_playback w =
    let (image, image_report) = resolve_image_url w in
    after (report_missing_assets w ++ image_report) (
      if is_aborted w.abort_at 1
      then stopped false true
      else after (dispatched preloaded ∷ on_started ∷ []) (
          if not w.on_started_resolves
          then stopped false (is_aborted w.abort_at 2)
          else if is_aborted w.abort_at 2
          then stopped true true
          else after (set_image_src image ∷ dispatched started ∷ []) (present_playback w)))

-- objectUrls
unfoldable pub object_urls : World → List Asset
object_urls w =
    (if image_url w then image_asset ∷ [] else [])
    ++ ((if sound_url w then sound_asset ∷ [] else [])
        ++ (if tts_url w then tts_asset ∷ [] else []))

abbrev pub revocations : List Asset → List Effect
revocations [] = []
revocations (a ∷ as') = revoked a ∷ revocations as'

-- The callback of `finally`, which awaits `onFinished` before it revokes the URLs.
unfoldable pub end_playback : World → Ran → List Effect
unfolding object_urls
end_playback w ran =
    if ran.was_aborted && (ran.was_started && not ran.was_completed)
    then on_finished interrupted
      ∷ (if w.on_interrupted_resolves then revocations (object_urls w) else [])
    else revocations (object_urls w)

-- `startPlayback` with a playback, while active.
unfoldable pub start_playback : World → List Effect
unfolding run_playback end_playback
start_playback w =
    let ran = run_playback w in
    (dispatched begin ∷ set_image_src false ∷ ran.effects) ++ end_playback w ran
