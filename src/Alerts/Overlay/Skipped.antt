-- ===== src/Alerts/Overlay/Skipped.antt =====
-- A playback that the server interrupted is not told back to it
-- (apps/web/src/hooks/use-alert-overlay.ts).
use streambrew.Base.{
  ℕ, ◌≡◌, refl, inl, inr, Bool, true, false, not, ◌&&◌, List, [], ◌∷◌, ◌++◌, Option, none, some,
  arith, anyb, filterb, All, ◌==◌, Bool-cases, if◌then◌else◌,
}
use streambrew.Alerts.Overlay.{
  Identity, active, standby, FinishOutcome, completed, interrupted, State, key_eq, is_playback,
  includes, resolve_alert_finish_acknowledgement, same_identity, set_current_playback,
  with_interrupted, suppress_server_interrupted_playback, invalidate_identity, is_active, Event,
  opened, released, played, skipped, revoked, stream_ended, acknowledgement_lost, finished,
  finish_acknowledged, diagnosed, told_finished, should_continue, finish, diagnose, released_claim,
  step, run,
}

-- An end of the playback `p` by interruption.
abbrev pub interrupts : ℕ → Event → Bool
interrupts p (finished identity q interrupted) = p == q
interrupts p _ = false

includes-snoc : (ps : List ℕ) (p : ℕ) → includes (ps ++ p ∷ []) p ≡ true
includes-snoc [] p = ground arith
includes-snoc (q ∷ ps) p = ground (arith, includes-snoc ps p)

includes-append : (ps qs : List ℕ) (p : ℕ) → includes ps p ≡ true → includes (ps ++ qs) p ≡ true
includes-append [] qs p h = absurd cc
includes-append (q ∷ ps) qs p h = ground (arith, h, includes-append ps qs p)

includes-others :
    (ps : List ℕ) (p q : ℕ)
    → (p == q) ≡ false
    → includes ps p ≡ true
    → includes (filterb (λ r. not (r == q)) ps) p ≡ true
includes-others [] p q n h = absurd cc
includes-others (r ∷ ps) p q n h = ground (arith, n, h, includes-others ps p q n)

includes-none : (ps : List ℕ) (p : ℕ) → includes (filterb (λ q. not (q == p)) ps) p ≡ false
includes-none [] p = refl
includes-none (q ∷ ps) p = ground (arith, includes-none ps p)

with_interrupted-includes :
    (o : Option ℕ) (ps : List ℕ) (p : ℕ)
    → includes ps p ≡ true
    → includes (with_interrupted o ps) p ≡ true
with_interrupted-includes none ps p h = h
with_interrupted-includes (some q) ps p h = elim (Bool-cases (includes ps q)) [
  | inl t ↦ rw t h
  | inr f ↦ rw f (includes-append ps (q ∷ []) p h)
]

invalidate-interrupted :
    (i : Identity) (s : State) → (invalidate_identity i s).server_interrupted ≡ s.server_interrupted
unfolding invalidate_identity set_current_playback
invalidate-interrupted i s = elim (Bool-cases (same_identity s.identity i)) [
  | inl t ↦ rw t refl
  | inr f ↦ rw f refl
]

released-interrupted :
    (o : Option Identity) (s : State)
    → (released_claim o s).server_interrupted ≡ s.server_interrupted
unfolding set_current_playback
released-interrupted none s = refl
released-interrupted (some (active p g)) s = refl
released-interrupted (some standby) s = refl

if-interrupted :
    (b : Bool) (x y : State) (p : ℕ)
    → includes x.server_interrupted p ≡ true
    → includes y.server_interrupted p ≡ true
    → includes (if b then x else y).server_interrupted p ≡ true
if-interrupted true x y p h k = h
if-interrupted false x y p h k = k

resolve-includes :
    (ps : List ℕ) (p q : ℕ) (identity : Option Identity) (outcome : FinishOutcome)
    → interrupts p (finished identity q outcome) ≡ false
    → includes ps p ≡ true
    → includes (resolve_alert_finish_acknowledgement ps q outcome).1 p ≡ true
unfolding resolve_alert_finish_acknowledgement
resolve-includes ps p q identity completed n h = h
resolve-includes ps p q identity interrupted n h = elim (Bool-cases (includes ps q)) [
  | inl t ↦ rw t (includes-others ps p q n h)
  | inr f ↦ rw f h
]

step-interrupted :
    (s : State) (e : Event) (p : ℕ)
    → interrupts p e ≡ false
    → includes s.server_interrupted p ≡ true
    → includes (step s e).1.server_interrupted p ≡ true
unfolding step set_current_playback suppress_server_interrupted_playback diagnose finish
step-interrupted s (opened identity) p n h = h
step-interrupted s released p n h = rw (released-interrupted s.identity s) h
step-interrupted s (played next) p n h = h
step-interrupted s skipped p n h = with_interrupted-includes s.playback s.server_interrupted p h
step-interrupted s (revoked i) p n h =
    rw (invalidate-interrupted i (suppress_server_interrupted_playback s))
      (with_interrupted-includes s.playback s.server_interrupted p h)
step-interrupted s (stream_ended i) p n h = rw (invalidate-interrupted i s) h
step-interrupted s (acknowledgement_lost i) p n h = rw (invalidate-interrupted i s) h
step-interrupted s (finished i q outcome) p n h =
    resolve-includes s.server_interrupted p q i outcome n h
step-interrupted s (finish_acknowledged q) p n h =
    if-interrupted (is_playback s.playback q) (set_current_playback none s) s p h h
step-interrupted s (diagnosed i q code aborted) p n h =
    elim (Bool-cases (is_active i && is_playback s.playback q)) [
      | inr f ↦ rw f h
      | inl t ↦ elim (Bool-cases (anyb (key_eq (q, code)) s.sent_diagnostics)) [
        | inl g ↦ rw (t, g) h
        | inr g ↦ rw (t, g) h
      ]
    ]

run-interrupted :
    (s : State) (es : List Event) (p : ℕ)
    → All (λ e. interrupts p e ≡ false) es
    → includes s.server_interrupted p ≡ true
    → includes (run s es).1.server_interrupted p ≡ true
unfolding run
run-interrupted s [] p n h = h
run-interrupted s (e ∷ es) p n h =
    run-interrupted (step s e).1 es p n.1 (step-interrupted s e p n.0 h)

skipped-interrupted :
    (s : State) (p : ℕ)
    → s.playback ≡ some p
    → includes (step s skipped).1.server_interrupted p ≡ true
unfolding step set_current_playback suppress_server_interrupted_playback
skipped-interrupted s p h = rw h (elim (Bool-cases (includes s.server_interrupted p)) [
  | inl t ↦ rw t t
  | inr f ↦ rw f (includes-snoc s.server_interrupted p)
])

-- When the server skips the playback, then, whatever else happens meanwhile, and even if that playback
-- is played again, its first interruption is not told to the server. The second is told exactly where
-- its callback has the identity that holds the claim and the playback is the current one.
pub skipped_is_not_told :
    (s : State) (es : List Event) (p : ℕ) (identity later : Option Identity)
    → s.playback ≡ some p
    → All (λ e. interrupts p e ≡ false) es
    → let before = (run (step s skipped).1 es).1 in
      let first = step before (finished identity p interrupted) in
      let second = step first.1 (finished later p interrupted) in
      (first.0 ≡ [])
      × (second.0
          ≡ (if should_continue before later p then told_finished p interrupted ∷ [] else []))
unfolding step finish resolve_alert_finish_acknowledgement
skipped_is_not_told s es p identity none h n =
    let before = (run (step s skipped).1 es).1 in
    let i = run-interrupted (step s skipped).1 es p n (skipped-interrupted s p h) in
    (rw i refl, rw (i, includes-none before.server_interrupted p) refl)
skipped_is_not_told s es p identity (some later) h n =
    let before = (run (step s skipped).1 es).1 in
    let i = run-interrupted (step s skipped).1 es p n (skipped-interrupted s p h) in
    (rw i refl, rw (i, includes-none before.server_interrupted p) refl)
