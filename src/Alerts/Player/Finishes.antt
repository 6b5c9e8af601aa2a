-- ===== src/Alerts/Player/Finishes.antt =====
-- How a run of the alert player ends (apps/web/src/components/alert-player-runtime.ts).
use streambrew.Base.{
  ℕ, ◌≡◌, ◌∙◌, refl, ap, Bool, true, false, not, ◌&&◌, [], ◌∷◌, ◌++◌, arith, Bool-cases, inl, inr,
  if◌then◌else◌, length, append-nil,
}
use streambrew.Alerts.Overlay.{completed, interrupted}
use streambrew.Alerts.Player.{
  Stage, idle, preloading, leave, exited, reduce_alert_player_stage, World, dispatched, is_aborted,
  Ran, after, complete, stopped, present_playback, run_playback, object_urls, revocations,
  end_playback, start_playback,
}
use streambrew.Alerts.Player.Effects.{
  outcomes, actions, outcomes-append, actions-append, Quiet-if, revocations-Quiet,
}
use streambrew.Alerts.Player.Runs.{is_accepted, Ended, run_playback-Ended}

if-started :
    (b : Bool) (x y : Ran)
    → x.was_started ≡ true
    → y.was_started ≡ true
    → (if b then x else y).was_started ≡ true
if-started true x y h k = h
if-started false x y h k = k

present_playback-started : (w : World) → (present_playback w).was_started ≡ true
unfolding present_playback
present_playback-started w =
    let a : ℕ → Bool = λ k. is_aborted w.abort_at k in
    let exit : Ran =
      after (dispatched exited ∷ []) (if a 8 then stopped true true else complete w) in
    let leaving : Ran = after (dispatched leave ∷ []) (if a 7 then stopped true true else exit) in
    if-started (a 3) (stopped true true) _ refl (
      if-started (a 6) (stopped true true) leaving refl (
        if-started (a 7) (stopped true true) exit refl
          (if-started (a 8) (stopped true true) (complete w) refl refl)))

run_playback-started :
    (w : World)
    → (run_playback w).was_started ≡ (w.on_started_resolves && not (is_aborted w.abort_at 1))
unfolding run_playback
run_playback-started w = elim (Bool-cases (is_aborted w.abort_at 1)) [
  | inl t ↦ rw t (ground arith)
  | inr f ↦ elim (Bool-cases w.on_started_resolves) [
    | inr g ↦ rw (f, g) refl
    | inl g ↦ elim (Bool-cases (is_aborted w.abort_at 2)) [
      | inl t ↦ rw (f, g, t) refl
      | inr h ↦ rw (f, g, h) (present_playback-started w)
    ]
  ]
]

end_playback-outcomes :
    (w : World) (r : Ran)
    → (outcomes (end_playback w r) ≡ (
        if r.was_aborted && (r.was_started && not r.was_completed) then interrupted ∷ [] else []))
      × (actions (end_playback w r) ≡ [])
unfolding end_playback outcomes actions
end_playback-outcomes w r =
    let q = revocations-Quiet (object_urls w) in
    let i = Quiet-if w.on_interrupted_resolves (revocations (object_urls w)) q in
    elim (Bool-cases (r.was_aborted && (r.was_started && not r.was_completed))) [
      | inl t ↦ (rw t (ap (λ os. interrupted ∷ os) i.no_outcomes), rw t i.no_actions)
      | inr f ↦ (rw f q.no_outcomes, rw f q.no_actions)
    ]

counted :
    (is_started is_completed is_off : Bool)
    → (is_started && (not is_completed && not is_off)) ≡ false
    → (is_completed && not is_started) ≡ false
    → length (
        (if is_completed then completed ∷ [] else [])
        ++ (if is_off && (is_started && not is_completed) then interrupted ∷ [] else []))
      ≡ (if is_started then 1 else 0)
counted true true b h k = ground (arith, h, k)
counted true false b h k = ground (arith, h, k)
counted false c b h k = ground (arith, h, k)

ending :
    (w : World) (s : Stage) (r : Ran)
    → Ended s r
    → (length (outcomes (r.effects ++ end_playback w r)) ≡ (if r.was_started then 1 else 0))
      × (is_accepted s (actions (r.effects ++ end_playback w r)) ≡ true)
ending w s r e =
    let (o, a) = end_playback-outcomes w r in
    let told = e.told in
    let m = e.moves in
    (
      rw (outcomes-append r.effects (end_playback w r), told, o)
          (counted r.was_started r.was_completed r.was_aborted e.over e.order),
      rw (actions-append r.effects (end_playback w r), a, append-nil (actions r.effects)) m,
    )

-- A run of the player tells the server of exactly one end of the alert if its start was told, and of
-- none otherwise: whatever loads, plays, fails and aborts, and whenever. Every action that it
-- dispatches moves the stage: none comes out of order.
pub start_playback_ends_once :
    (w : World)
    → (length (outcomes (start_playback w))
        ≡ (if w.on_started_resolves && not (is_aborted w.abort_at 1) then 1 else 0))
      × (is_accepted idle (actions (start_playback w)) ≡ true)
unfolding start_playback outcomes actions is_accepted reduce_alert_player_stage
start_playback_ends_once w =
    let (n, m) = ending w preloading (run_playback w) (run_playback-Ended w) in
    (n ∙ ap (λ b. if b then 1 else 0) (run_playback-started w), m)
