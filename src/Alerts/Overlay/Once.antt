-- ===== src/Alerts/Overlay/Once.antt =====
-- What the alert overlay tells the server, and how often
-- (apps/web/src/hooks/use-alert-overlay.ts).
use streambrew.Base.{
  not, Option, none, some, ◌==◌, ℕ, ◌≡◌, ◌∙◌, refl, sym, ap, subst, inl, inr, Bool, true, false,
  ◌&&◌, List, [], ◌∷◌, ◌++◌, arith, anyb, All, Bool-cases, if◌then◌else◌, append_assoc, append-nil,
}
use streambrew.Alerts.Overlay.{
  Identity, DiagnosticCode, FinishOutcome, State, code_eq, key_eq, is_playback,
  resolve_alert_finish_acknowledgement, is_active, Event, opened, released, played, skipped,
  revoked, stream_ended, acknowledgement_lost, finished, finish_acknowledged, diagnosed, Told,
  told_finished, told_diagnostic, should_continue, set_current_playback, finish, diagnose, step,
  run,
}

code_eq_sym : (c d : DiagnosticCode) → code_eq c d ≡ code_eq d c
code_eq_sym c d = ground arith

key_eq_sym : (j k : ℕ × DiagnosticCode) → key_eq j k ≡ key_eq k j
key_eq_sym (p, c) (q, d) = ground (arith, code_eq_sym c d)

-- No key twice.
abbrev pub Distinct : List (ℕ × DiagnosticCode) → Type 0
Distinct [] = Unit
Distinct (k ∷ ks) = (anyb (key_eq k) ks ≡ false) × Distinct ks

anyb-snoc :
    (j k : ℕ × DiagnosticCode) (ks : List (ℕ × DiagnosticCode))
    → anyb (key_eq j) ks ≡ false
    → key_eq j k ≡ false
    → anyb (key_eq j) (ks ++ k ∷ []) ≡ false
anyb-snoc j k [] h n = ground (arith, n)
anyb-snoc j k (i ∷ ks) h n = ground (arith, anyb-snoc j k ks, h, n)

Distinct-snoc :
    (k : ℕ × DiagnosticCode) (ks : List (ℕ × DiagnosticCode))
    → Distinct ks
    → anyb (key_eq k) ks ≡ false
    → Distinct (ks ++ k ∷ [])
Distinct-snoc k [] d h = (refl, tt)
Distinct-snoc k (j ∷ ks) d h = (
  anyb-snoc j k ks d.0 (key_eq_sym j k ∙ ground (arith, h)),
  Distinct-snoc k ks d.1 (ground (arith, h)),
)

anyb-remove :
    (j k : ℕ × DiagnosticCode) (ks ls : List (ℕ × DiagnosticCode))
    → anyb (key_eq j) (ks ++ k ∷ ls) ≡ false
    → anyb (key_eq j) (ks ++ ls) ≡ false
anyb-remove j k [] ls h = ground (arith, h)
anyb-remove j k (i ∷ ks) ls h = ground (arith, h, anyb-remove j k ks ls)

Distinct-remove :
    (k : ℕ × DiagnosticCode) (ks ls : List (ℕ × DiagnosticCode))
    → Distinct (ks ++ k ∷ ls)
    → Distinct (ks ++ ls)
Distinct-remove k [] ls d = d.1
Distinct-remove k (j ∷ ks) ls d = (anyb-remove j k ks ls d.0, Distinct-remove k ks ls d.1)

-- The diagnostics among what the server is told.
unfoldable pub told_keys : List Told → List (ℕ × DiagnosticCode)
told_keys [] = []
told_keys (told_finished p o ∷ ts) = told_keys ts
told_keys (told_diagnostic p c ∷ ts) = (p, c) ∷ told_keys ts

-- An event that leaves `p` the playback: among them it comes again.
abbrev pub stays : ℕ → Event → Bool
stays p (opened identity) = true
stays p (played next) = is_playback next p
stays p (finished identity q outcome) = true
stays p (finish_acknowledged q) = not (q == p)
stays p (diagnosed identity q code aborted) = true
stays p _ = false

told_keys-append : (ts us : List Told) → told_keys (ts ++ us) ≡ told_keys ts ++ told_keys us
unfolding told_keys
told_keys-append [] us = refl
told_keys-append (told_finished p o ∷ ts) us = told_keys-append ts us
told_keys-append (told_diagnostic p c ∷ ts) us = ap (λ ks. (p, c) ∷ ks) (told_keys-append ts us)

-- A call that comes after those before it.
next_told :
    (p : ℕ) (code : DiagnosticCode) (told : Bool) (sent later : List (ℕ × DiagnosticCode))
    → Distinct ((sent ++ (p, code) ∷ []) ++ later)
    → Distinct (sent ++ (told_keys (if told then told_diagnostic p code ∷ [] else []) ++ later))
unfolding told_keys
next_told p code true sent later d = subst Distinct (append_assoc sent ((p, code) ∷ []) later) d
next_told p code false sent later d =
    Distinct-remove (p, code) sent later
      (subst Distinct (append_assoc sent ((p, code) ∷ []) later) d)

no_diagnostic :
    (b : Bool) (p : ℕ) (outcome : FinishOutcome)
    → told_keys (if b then told_finished p outcome ∷ [] else []) ≡ []
unfolding told_keys
no_diagnostic true p outcome = refl
no_diagnostic false p outcome = refl

is_playback_sound : (o : Option ℕ) (p : ℕ) → is_playback o p ≡ true → o ≡ some p
is_playback_sound none p h = absurd cc
is_playback_sound (some q) p h = ground arith

-- What an event leaves: the playback, and room for the calls that come later.
record Goes (p : ℕ) (s : State) (told : List Told) (after : State) : Type 0 where
  playing : after.playback ≡ some p
  distinct : Distinct after.sent_diagnostics
  later :
      (ks : List (ℕ × DiagnosticCode))
      → Distinct (after.sent_diagnostics ++ ks)
      → Distinct (s.sent_diagnostics ++ (told_keys told ++ ks))

silent :
    (p : ℕ) (s after : State)
    → after.playback ≡ some p
    → after.sent_diagnostics ≡ s.sent_diagnostics
    → Distinct s.sent_diagnostics
    → Goes p s [] after
unfolding told_keys
silent p s after q e d = record {
  playing = q;
  distinct = subst Distinct (sym e) d;
  later = λ ks h. subst (λ x. Distinct (x ++ ks)) e h;
}

played-Goes :
    (p : ℕ) (next : Option ℕ) (s : State)
    → next ≡ some p
    → s.playback ≡ some p
    → Distinct s.sent_diagnostics
    → Goes p s [] (set_current_playback next s)
unfolding set_current_playback
played-Goes p next s n q d = silent p s (set_current_playback next s) n (rw (n, q) (ground arith)) d

diagnosed-Goes :
    (p q : ℕ) (identity : Option Identity) (code : DiagnosticCode) (aborted : Bool) (s : State)
    → s.playback ≡ some p
    → Distinct s.sent_diagnostics
    → Goes p s (diagnose identity q code aborted s).0 (diagnose identity q code aborted s).1
unfolding diagnose
diagnosed-Goes p q identity code aborted s h d =
    elim (Bool-cases (is_active identity && is_playback s.playback q)) [
      | inr off ↦ rw off (silent p s s h refl d)
      | inl on ↦ elim (Bool-cases (anyb (key_eq (q, code)) s.sent_diagnostics)) [
        | inl sent ↦ rw (on, sent) (silent p s s h refl d)
        | inr fresh ↦
            rw (on, fresh)
              (record {
                playing = h;
                distinct = Distinct-snoc (q, code) s.sent_diagnostics d fresh;
                later =
                    next_told q code (not aborted && should_continue s identity q)
                      s.sent_diagnostics;
              })
      ]
    ]

step-Goes :
    (p : ℕ) (s : State) (e : Event)
    → stays p e ≡ true
    → s.playback ≡ some p
    → Distinct s.sent_diagnostics
    → Goes p s (step s e).0 (step s e).1
unfolding step finish resolve_alert_finish_acknowledgement
step-Goes p s (opened identity) h q d = silent p s _ q refl d
step-Goes p s (played next) h q d = played-Goes p next s (is_playback_sound next p h) q d
step-Goes p s (finished identity r outcome) h q d =
    let acknowledgement = resolve_alert_finish_acknowledgement s.server_interrupted r outcome in
    record {
      playing = q;
      distinct = d;
      later = λ ks l.
          rw (no_diagnostic (acknowledgement.0 && should_continue s identity r) r outcome) l;
    }
step-Goes p s (finish_acknowledged r) h q d =
    let off : is_playback s.playback r ≡ false = rw q (ground (arith, h)) in
    rw (off, step) (silent p s s q refl d)
step-Goes p s (diagnosed identity r code aborted) h q d =
    diagnosed-Goes p r identity code aborted s q d
step-Goes p s released h q d = absurd cc
step-Goes p s skipped h q d = absurd cc
step-Goes p s (revoked i) h q d = absurd cc
step-Goes p s (stream_ended i) h q d = absurd cc
step-Goes p s (acknowledgement_lost i) h q d = absurd cc

-- Where no key was kept twice before, and as long as the same playback stays, which may also come
-- again: the server is told each diagnostic at most once, and none whose key was kept before, whatever
-- callbacks come and whoever has the claim. To tell is the first call of a retry loop, which calls
-- again only where a call fails.
pub diagnostics_told_once :
    (p : ℕ) (s : State) (es : List Event)
    → s.playback ≡ some p
    → All (λ e. stays p e ≡ true) es
    → Distinct s.sent_diagnostics
    → Distinct (s.sent_diagnostics ++ told_keys (run s es).0)
unfolding run told_keys
diagnostics_told_once p s [] q h d = rw (append-nil s.sent_diagnostics) d
diagnostics_told_once p s (e ∷ es) q h d =
    let here = step-Goes p s e h.0 q d in
    rw (told_keys-append (step s e).0 (run (step s e).1 es).0) (
      here.later (told_keys (run (step s e).1 es).0)
        (diagnostics_told_once p (step s e).1 es here.playing h.1 here.distinct))
