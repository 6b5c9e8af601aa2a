-- ===== src/VideoQueue/Tables/Best.antt =====
-- The priority that the trigger set_video_priority_id of db/schema.sql picks.
use streambrew.Base.{
  ℕ, ◌≡◌, ◌∙◌, refl, sym, ap, subst, inl, inr, Bool, true, false, ◌&&◌, List, [], ◌∷◌, Option, none,
  some, arith, anyb, filterb, filterb-true, anyb-filterb, All, All-mono, All-filterb, All-Memᴰ,
  Memᴰ, ◌==◌, Bool-cases, Option-cases, Result, ok, ◌>>◌, guard,
}
use streambrew.VideoQueue.Queues.{VideoQueueError, constraint_violated}
use streambrew.VideoQueue.Tables.{
  Video, Priority, Db, option_eq, owner, has_queue, has_priority, meets, precedes, best, choose,
  starts_late, priced, set_video_priority_id,
}

best-anyb :
    (r : Priority → Bool) (ps : List Priority) (p : Priority)
    → best ps ≡ some p
    → r p ≡ true
    → anyb r ps ≡ true
unfolding best
best-anyb r [] p e t = absurd cc
best-anyb r (q ∷ ps) p e t = elim (Option-cases (best ps)) [
  | inl n ↦ ground (arith, n, e, t)
  | inr (b, s) ↦ ground (arith, s, e, t, best-anyb r ps b s)
]

best-none : (ps : List Priority) → best ps ≡ none → ps ≡ []
unfolding best
best-none [] e = refl
best-none (p ∷ ps) e = absurd cc

-- Nothing comes before the first.
best-first :
    (ps : List Priority) (p : Priority) → best ps ≡ some p → All (λ q. precedes q p ≡ false) ps
unfolding best
best-first [] p e = tt
best-first (q ∷ ps) p e = elim (Option-cases (best ps)) [
  | inl n ↦ ground (arith, n, e, best-none ps n)
  | inr (b, s) ↦ elim (Bool-cases (precedes b q)) [
    | inl t ↦
        let is : p ≡ b = ground (arith, s, e, t) in
        subst (λ x. All (λ z. precedes z x ≡ false) (q ∷ ps)) (sym is)
          (ground (arith, t), best-first ps b s)
    | inr f ↦
        let is : p ≡ q = ground (arith, s, e, f) in
        subst (λ x. All (λ z. precedes z x ≡ false) (q ∷ ps)) (sym is)
          (
            ground arith,
            All-mono (λ x. precedes x b ≡ false) (λ x. precedes x q ≡ false)
                (λ x h. ground (arith, f, h)) ps (best-first ps b s),
          )
  ]
]

best-All :
    (R : Priority → Type 0) (ps : List Priority) (p : Priority) → best ps ≡ some p → All R ps → R p
unfolding best
best-All R [] p e h = absurd cc
best-All R (q ∷ ps) p e h = elim (Option-cases (best ps)) [
  | inl n ↦ let is : q ≡ p = ground (arith, n, e) in subst R is h.0
  | inr (b, s) ↦ elim (Bool-cases (precedes b q)) [
    | inl t ↦ let is : b ≡ p = ground (arith, s, e, t) in subst R is (best-All R ps b s h.1)
    | inr f ↦ let is : q ≡ p = ground (arith, s, e, f) in subst R is h.0
  ]
]

anyb_mono :
    (p q : Priority → Bool)
    → ((x : Priority) → p x ≡ true → q x ≡ true)
    → (ps : List Priority) → anyb p ps ≡ true
    → anyb q ps ≡ true
anyb_mono p q f [] h = h
anyb_mono p q f (x ∷ ps) h = ground (arith, f x, anyb_mono p q f ps)

-- What the trigger chooses from: the owner's priorities whose threshold is met.
abbrev pub is_candidate : Option ℕ → ℕ → ℕ → ℕ → Priority → Bool
is_candidate o amount start_seconds end_seconds p =
    option_eq (some p.user_id) o && meets p.min_price_per_minute amount start_seconds end_seconds

-- The choice in a row: a candidate of the table, with no candidate before it.
pub record Chosen (ps : List Priority) (o : Option ℕ) (amount start_seconds end_seconds : ℕ)
    (w : Video) : Type 0 where
  pub priority : Priority
  pub member : Memᴰ priority ps
  pub assigned : w.video_priority_id ≡ some priority.video_priority_id
  pub candidate : is_candidate o amount start_seconds end_seconds priority ≡ true
  pub first :
      All
        (λ q. precedes q priority ≡ false)
        (filterb (is_candidate o amount start_seconds end_seconds) ps)

pub best-owned :
    (o : Option ℕ) (amount start_seconds end_seconds : ℕ) (ps : List Priority) (p : Priority)
    → best (filterb (is_candidate o amount start_seconds end_seconds) ps) ≡ some p
    → has_priority ps o (some p.video_priority_id) ≡ true
best-owned o amount s e ps p b =
    let c : is_candidate o amount s e p ≡ true =
      best-All (λ q. is_candidate o amount s e q ≡ true) (filterb (is_candidate o amount s e) ps) p
        b (filterb-true (is_candidate o amount s e) ps) in
    let m =
      best-anyb (λ q. q.video_priority_id == p.video_priority_id && option_eq (some q.user_id) o)
        (filterb (is_candidate o amount s e) ps) p b (ground (arith, c)) in
    anyb_mono
      (λ q.
        is_candidate o amount s e q
        && (q.video_priority_id == p.video_priority_id && option_eq (some q.user_id) o))
      (λ q. q.video_priority_id == p.video_priority_id && option_eq (some q.user_id) o)
      (λ q h. ground (arith, h)) ps
      (sym (
          anyb-filterb (is_candidate o amount s e)
            (λ q. q.video_priority_id == p.video_priority_id && option_eq (some q.user_id) o) ps)
        ∙ m)

choose-Chosen :
    (ps : List Priority) (o : Option ℕ) (amount end_seconds : ℕ) (v w : Video)
    → choose ps o amount end_seconds v ≡ ok w
    → Chosen ps o amount v.start_seconds end_seconds w
unfolding choose
choose-Chosen ps o amount e v w h =
    let s : ℕ = v.start_seconds in
    elim (Option-cases (best (filterb (is_candidate o amount s e) ps))) [
      | inl n ↦ absurd (ground (arith, n, h))
      | inr (p, b) ↦
          let w_is : record v { video_priority_id = some p.video_priority_id } ≡ w =
            ground (arith, b, h) in
          record {
            priority = p;
            member =
                best-All (λ q. Memᴰ q ps) (filterb (is_candidate o amount s e) ps) p b
                  (All-filterb (λ q. Memᴰ q ps) (is_candidate o amount s e) ps (All-Memᴰ ps));
            assigned = sym (ap (λ x. x.video_priority_id) w_is);
            candidate =
                best-All (λ q. is_candidate o amount s e q ≡ true)
                  (filterb (is_candidate o amount s e) ps) p b
                  (filterb-true (is_candidate o amount s e) ps);
            first = best-first (filterb (is_candidate o amount s e) ps) p b;
          }
    ]

guards :
    (a b : Bool) (e : VideoQueueError) (k : Result VideoQueueError Video) (w : Video)
    → (guard a e >> (guard b e >> k)) ≡ ok w
    → (a ≡ true) × (b ≡ true) × (k ≡ ok w)
guards true true e k w h = (refl, refl, h)
guards true false e k w h = absurd cc
guards false b e k w h = absurd cc

pub set_video_priority_id-ok :
    (db : Db) (keeps : Bool) (v w : Video)
    → set_video_priority_id db keeps v ≡ ok w
    → (has_queue db.queues (owner db.donations v) v.video_queue_id ≡ true)
      × (has_priority db.priorities (owner db.donations v) v.video_priority_id ≡ true)
      × (priced db.priorities
            (owner db.donations v)
            (starts_late v.duration_seconds v.start_seconds)
            v.queue_amount
            v.end_seconds
            keeps
            v
          ≡ ok w)
unfolding set_video_priority_id
set_video_priority_id-ok db keeps v w h =
    guards (has_queue db.queues (owner db.donations v) v.video_queue_id)
      (has_priority db.priorities (owner db.donations v) v.video_priority_id) constraint_violated
      (priced db.priorities (owner db.donations v) (starts_late v.duration_seconds v.start_seconds)
        v.queue_amount v.end_seconds keeps v)
      w h

priced-choose :
    (ps : List Priority) (o : Option ℕ) (amount end_seconds : ℕ) (late : Bool)
    (given_amount given_end : Option ℕ) (v w : Video)
    → given_amount ≡ some amount
    → given_end ≡ some end_seconds
    → late ≡ false
    → priced ps o late given_amount given_end false v ≡ ok w
    → choose ps o amount end_seconds v ≡ ok w
priced-choose ps o amount e late none given_end v w a n l h = absurd cc
priced-choose ps o amount e late (some x) none v w a n l h = absurd cc
priced-choose ps o amount e true (some x) (some y) v w a n l h = absurd cc
priced-choose ps o amount e false (some x) (some y) v w a n l h = cc

-- A row with an amount and an end, whose start is in its duration, that keeps no priority: where the
-- trigger lets it through, it has the priority in the table that the owner's amount per minute pays for, with the
-- highest threshold, and of those the least id.
pub set_video_priority_id-Chosen :
    (db : Db) (v w : Video) (amount end_seconds : ℕ)
    → v.queue_amount ≡ some amount
    → v.end_seconds ≡ some end_seconds
    → starts_late v.duration_seconds v.start_seconds ≡ false
    → set_video_priority_id db false v ≡ ok w
    → Chosen db.priorities (owner db.donations v) amount v.start_seconds end_seconds w
set_video_priority_id-Chosen db v w amount e a n l h =
    choose-Chosen db.priorities (owner db.donations v) amount e v w (
      priced-choose db.priorities (owner db.donations v) amount e
        (starts_late v.duration_seconds v.start_seconds) v.queue_amount v.end_seconds v w a n l
        (set_video_priority_id-ok db false v w h).2)
