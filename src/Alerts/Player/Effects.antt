-- ===== src/Alerts/Player/Effects.antt =====
-- What the effects of a run tell and dispatch (apps/web/src/components/alert-player-runtime.ts).
use streambrew.Base.{
  ◌≡◌, refl, ap, Bool, true, false, not, ◌&&◌, List, [], ◌∷◌, ◌++◌, Option, none, some,
  if◌then◌else◌,
}
use streambrew.Alerts.Overlay.{
  DiagnosticCode, image_unavailable, sound_unavailable, tts_unavailable, FinishOutcome,
}
use streambrew.Alerts.Player.{
  Action, World, Asset, Effect, dispatched, on_diagnostic, on_started, set_image_src, on_finished,
  revoked, is_aborted, report, report_option, image_url, sound_url, tts_url, report_missing_assets,
  revocations,
}

-- The outcomes that are told, in order.
unfoldable pub outcomes : List Effect → List FinishOutcome
outcomes [] = []
outcomes (on_finished o ∷ es) = o ∷ outcomes es
outcomes (dispatched a ∷ es) = outcomes es
outcomes (on_diagnostic c ∷ es) = outcomes es
outcomes (on_started ∷ es) = outcomes es
outcomes (set_image_src b ∷ es) = outcomes es
outcomes (revoked a ∷ es) = outcomes es

-- The actions that are dispatched, in order.
unfoldable pub actions : List Effect → List Action
actions [] = []
actions (dispatched a ∷ es) = a ∷ actions es
actions (on_finished o ∷ es) = actions es
actions (on_diagnostic c ∷ es) = actions es
actions (on_started ∷ es) = actions es
actions (set_image_src b ∷ es) = actions es
actions (revoked a ∷ es) = actions es

pub outcomes-append : (es fs : List Effect) → outcomes (es ++ fs) ≡ outcomes es ++ outcomes fs
unfolding outcomes
outcomes-append [] fs = refl
outcomes-append (on_finished o ∷ es) fs = ap (λ os. o ∷ os) (outcomes-append es fs)
outcomes-append (dispatched a ∷ es) fs = outcomes-append es fs
outcomes-append (on_diagnostic c ∷ es) fs = outcomes-append es fs
outcomes-append (on_started ∷ es) fs = outcomes-append es fs
outcomes-append (set_image_src b ∷ es) fs = outcomes-append es fs
outcomes-append (revoked a ∷ es) fs = outcomes-append es fs

pub actions-append : (es fs : List Effect) → actions (es ++ fs) ≡ actions es ++ actions fs
unfolding actions
actions-append [] fs = refl
actions-append (dispatched a ∷ es) fs = ap (λ os. a ∷ os) (actions-append es fs)
actions-append (on_finished o ∷ es) fs = actions-append es fs
actions-append (on_diagnostic c ∷ es) fs = actions-append es fs
actions-append (on_started ∷ es) fs = actions-append es fs
actions-append (set_image_src b ∷ es) fs = actions-append es fs
actions-append (revoked a ∷ es) fs = actions-append es fs

-- Diagnostics neither tell an end nor move a stage.
pub record Quiet (es : List Effect) : Type 0 where
  pub no_outcomes : outcomes es ≡ []
  pub no_actions : actions es ≡ []

pub Quiet-append : (es fs : List Effect) → Quiet es → Quiet fs → Quiet (es ++ fs)
Quiet-append es fs q r = record {
  no_outcomes = rw (outcomes-append es fs, q.no_outcomes) r.no_outcomes;
  no_actions = rw (actions-append es fs, q.no_actions) r.no_actions;
}

pub Quiet-if : (b : Bool) (es : List Effect) → Quiet es → Quiet (if b then es else [])
unfolding outcomes actions
Quiet-if true es q = q
Quiet-if false es q = record { no_outcomes = refl; no_actions = refl }

pub report-Quiet : (b : Bool) (c : DiagnosticCode) → Quiet (report b c)
unfolding outcomes actions
report-Quiet true c = record { no_outcomes = refl; no_actions = refl }
report-Quiet false c = record { no_outcomes = refl; no_actions = refl }

pub report_option-Quiet : (b : Bool) (o : Option DiagnosticCode) → Quiet (report_option b o)
unfolding outcomes actions
report_option-Quiet b none = record { no_outcomes = refl; no_actions = refl }
report_option-Quiet b (some c) = report-Quiet b c

pub revocations-Quiet : (xs : List Asset) → Quiet (revocations xs)
unfolding outcomes actions
revocations-Quiet [] = record { no_outcomes = refl; no_actions = refl }
revocations-Quiet (x ∷ xs) =
    let q = revocations-Quiet xs in
    record { no_outcomes = q.no_outcomes; no_actions = q.no_actions }

pub missing-Quiet : (w : World) → Quiet (report_missing_assets w)
unfolding report_missing_assets
missing-Quiet w =
    Quiet-append _ _
      (Quiet-if (w.has_image && not (image_url w))
        (report (is_aborted w.abort_at 0) image_unavailable)
        (report-Quiet (is_aborted w.abort_at 0) image_unavailable))
      (Quiet-append _ _
        (Quiet-if (w.has_sound && not (sound_url w))
          (report (is_aborted w.abort_at 0) sound_unavailable)
          (report-Quiet (is_aborted w.abort_at 0) sound_unavailable))
        (Quiet-if (w.has_tts && not (tts_url w)) (report (is_aborted w.abort_at 0) tts_unavailable)
          (report-Quiet (is_aborted w.abort_at 0) tts_unavailable)))
