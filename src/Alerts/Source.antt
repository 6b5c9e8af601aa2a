-- ===== src/Alerts/Source.antt =====
-- Whether the overlay's OBS source shows (apps/web/src/hooks/use-alert-overlay.ts): the signals that
-- OBS and the document give, and what follows from them. `none` is a signal that has not come.
use streambrew.Base.{
  ◌≡◌, refl, Bool, true, false, not, ◌&&◌, List, [], ◌∷◌, Option, none, some, arith, if◌then◌else◌,
}

pub record Signals : Type 0 where
  pub active : Option Bool
  pub document_visible : Bool
  pub obs_present : Bool
  pub obs_visible : Option Bool
  pub settled : Bool

pub record SourceState : Type 0 where
  pub active : Option Bool
  pub visible : Option Bool
  pub ready : Bool

unfoldable pub initial_alert_source_signals : Bool → Bool → Signals
initial_alert_source_signals obs_present document_visible = record {
  active = if obs_present then none else some true;
  document_visible = document_visible;
  obs_present = obs_present;
  obs_visible = if obs_present then none else some true;
  settled = not obs_present;
}

abbrev pub is_known : Option Bool → Bool
is_known none = false
is_known (some _) = true

abbrev pub visible_of : Option Bool → Bool → Bool → Option Bool
visible_of none settled document_visible = if settled then some document_visible else none
visible_of (some obs) settled document_visible = some (document_visible && obs)

abbrev pub active_of : Option Bool → Bool → Option Bool → Option Bool
active_of (some a) settled visible = some a
active_of none settled visible = if settled then visible else none

unfoldable pub resolve_alert_source_state : Signals → SourceState
resolve_alert_source_state s =
    if s.obs_present
    then (let visible : Option Bool = visible_of s.obs_visible s.settled s.document_visible in
        let active : Option Bool = active_of s.active s.settled visible in
        record { active = active; visible = visible; ready = is_known active && is_known visible })
    else record { active = some true; visible = some true; ready = true }

unfoldable pub settle_alert_source_signals : Signals → Signals
settle_alert_source_signals s = record s { settled = true }

-- The listeners of `useObsSourceState`; an event without a Boolean is dropped before it gets here.
pub data SourceEvent : Type 0 where
  active_changed visible_changed document_visibility_changed : Bool → SourceEvent
  settle : SourceEvent

unfoldable pub source_step : Signals → SourceEvent → Signals
unfolding settle_alert_source_signals
source_step s (active_changed b) = record s { active = some b }
source_step s (visible_changed b) = record s { obs_visible = some b }
source_step s (document_visibility_changed b) = record s { document_visible = b }
source_step s settle = settle_alert_source_signals s

unfoldable pub source_run : Signals → List SourceEvent → Signals
source_run s [] = s
source_run s (e ∷ es) = source_run (source_step s e) es

abbrev is_true : Option Bool → Bool
is_true (some b) = b
is_true none = false

-- `source.ready && source.active === true && source.visible === true`
unfoldable pub can_claim : SourceState → Bool
can_claim s = s.ready && (is_true s.active && is_true s.visible)

pub record Settled (s : Signals) : Type 0 where
  pub settled : s.settled ≡ true

source_run-Settled : (s : Signals) (es : List SourceEvent) → Settled s → Settled (source_run s es)
unfolding source_run source_step
source_run-Settled s [] h = h
source_run-Settled s (active_changed b ∷ es) h =
    source_run-Settled (record s { active = some b }) es (record { settled = h.settled })
source_run-Settled s (visible_changed b ∷ es) h =
    source_run-Settled (record s { obs_visible = some b }) es (record { settled = h.settled })
source_run-Settled s (document_visibility_changed b ∷ es) h =
    source_run-Settled (record s { document_visible = b }) es (record { settled = h.settled })
source_run-Settled s (settle ∷ es) h =
    source_run-Settled (record s { settled = true }) es (record { settled = refl })

resolve-Settled : (s : Signals) → Settled s → (resolve_alert_source_state s).ready ≡ true
unfolding resolve_alert_source_state
resolve-Settled s h = ground (arith, h.settled)

-- Once the settling time is over, the state of the source is known for good, whatever events come.
pub ready_after_settling :
    (s : Signals) (es : List SourceEvent)
    → (resolve_alert_source_state (source_run (source_step s settle) es)).ready ≡ true
unfolding source_step resolve_alert_source_state
ready_after_settling s es =
    resolve-Settled (source_run (source_step s settle) es)
      (source_run-Settled (source_step s settle) es (record { settled = refl }))

-- In OBS the overlay claims the stream exactly when the document is visible and OBS has said nothing
-- else of visibility, or is silent on it and the settling time is over, and the same for activity,
-- which follows visibility while OBS is silent.
pub can_claim_lem :
    (s : Signals)
    → s.obs_present ≡ true
    → can_claim (resolve_alert_source_state s) ≡ (
        s.document_visible
        && (elim s.obs_visible [ none ↦ s.settled | some v ↦ v ]
            && elim s.active [ none ↦ s.settled | some a ↦ a ]))
unfolding can_claim resolve_alert_source_state
can_claim_lem s h = ground arith
