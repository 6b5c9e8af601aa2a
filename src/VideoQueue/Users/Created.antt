-- ===== src/VideoQueue/Users/Created.antt =====
-- What the loop of `getOrCreateUserId` creates (apps/web/src/server/sensors/db/store.ts).
use streambrew.Base.{
  ℕ, ◌≡◌, ◌≢◌, ◌∙◌, refl, sym, ap, ◌⊎◌, inl, inr, Bool, true, false, not, ◌&&◌, ◌||◌, List, [], ◌∷◌,
  ◌++◌, append_assoc, append-nil, Text, codes, text_eq, Option, none, some, arith, filterb, head?,
  anyb, ◌==◌, ==→eq, if◌then◌else◌, Bool-cases, Option-cases, All, err, ok,
}
use streambrew.VideoQueue.Queues.{Queue}
use streambrew.VideoQueue.Tables.{Priority, User, Db}
use streambrew.VideoQueue.Users.{
  slug_conflict, Draw, has_auth, get_user_id, new_user, main_queue, new_priority, conflicts,
  insert_priorities, new_priorities, create_user, create_with, get_or_create_user_id, is_user,
}

-- The foreign keys of the queues and of the priorities.
pub record HasOwners (db : Db) : Type 0 where
  pub queues : All (λ q. anyb (is_user q.user_id) db.users ≡ true) db.queues
  pub priorities : All (λ p. anyb (is_user p.user_id) db.users ≡ true) db.priorities

-- Numbers of the sequences, which no row has yet.
pub record IsFresh (db : Db) (draw : Draw) : Type 0 where
  pub user : anyb (is_user draw.user_id) db.users ≡ false
  pub queue : anyb (λ q. q.video_queue_id == draw.queue_id) db.queues ≡ false
  pub free_0 : anyb (λ p. p.video_priority_id == draw.priority_0) db.priorities ≡ false
  pub free_1 : anyb (λ p. p.video_priority_id == draw.priority_1) db.priorities ≡ false
  pub free_2 : anyb (λ p. p.video_priority_id == draw.priority_2) db.priorities ≡ false
  pub free_3 : anyb (λ p. p.video_priority_id == draw.priority_3) db.priorities ≡ false
  pub ne_01 : draw.priority_0 ≢ draw.priority_1
  pub ne_02 : draw.priority_0 ≢ draw.priority_2
  pub ne_03 : draw.priority_0 ≢ draw.priority_3
  pub ne_12 : draw.priority_1 ≢ draw.priority_2
  pub ne_13 : draw.priority_1 ≢ draw.priority_3
  pub ne_23 : draw.priority_2 ≢ draw.priority_3

-- The tables with a new user.
abbrev pub created : Text → Draw → Db → Db
created auth draw db = record db {
  users = db.users ++ new_user auth draw ∷ [];
  queues = db.queues ++ main_queue draw.queue_id draw.user_id ∷ [];
  priorities = db.priorities ++ new_priorities draw draw.user_id;
}

abbrev pub is_taken : List User → Text → Bool
is_taken us slug = anyb (λ w. text_eq w.slug slug) us

pub no_queues :
    (us : List User) (u : ℕ) (qs : List Queue)
    → All (λ q. anyb (is_user q.user_id) us ≡ true) qs
    → anyb (is_user u) us ≡ false
    → anyb (λ q. q.user_id == u) qs ≡ false
no_queues us u [] h free = refl
no_queues us u (q ∷ qs) h free = elim (Bool-cases (q.user_id == u)) [
  | inl e ↦ absurd (cc (ap (λ n. anyb (is_user n) us) (==→eq q.user_id u e), h.0, free))
  | inr e ↦ rw e (no_queues us u qs h.1 free)
]

no_priorities :
    (us : List User) (u : ℕ) (ps : List Priority)
    → All (λ p. anyb (is_user p.user_id) us ≡ true) ps
    → anyb (is_user u) us ≡ false
    → anyb (λ p. p.user_id == u) ps ≡ false
no_priorities us u [] h free = refl
no_priorities us u (p ∷ ps) h free = elim (Bool-cases (p.user_id == u)) [
  | inl e ↦ absurd (cc (ap (λ n. anyb (is_user n) us) (==→eq p.user_id u e), h.0, free))
  | inr e ↦ rw e (no_priorities us u ps h.1 free)
]

main_queue-free :
    (id u : ℕ) (qs : List Queue)
    → anyb (λ q. q.user_id == u) qs ≡ false
    → anyb (λ q. q.video_queue_id == id) qs ≡ false
    → (anyb (λ q. q.user_id == u && q.is_default) qs ≡ false)
      × (anyb (λ q. (q.user_id == u && text_eq q.label (codes "Main")) || q.video_queue_id == id) qs
          ≡ false)
main_queue-free id u [] h k = (refl, refl)
main_queue-free id u (q ∷ qs) h k = ground (arith, main_queue-free id u qs)

priority-free :
    (p : Priority) (ps : List Priority)
    → anyb (λ q. q.user_id == p.user_id) ps ≡ false
    → anyb (λ q. q.video_priority_id == p.video_priority_id) ps ≡ false
    → anyb (conflicts p) ps ≡ false
priority-free p [] h k = refl
priority-free p (q ∷ qs) h k = ground (arith, priority-free p qs)

pub anyb-append {ℓ} :
    {A : Type ℓ} (p : A → Bool) (xs ys : List A) → anyb p (xs ++ ys) ≡ (anyb p xs || anyb p ys)
anyb-append p [] ys = refl
anyb-append p (x ∷ xs) ys = ground (arith, anyb-append p xs ys)

-- New rows that meet neither the rows of the table nor one another.
abbrev Apart : List Priority → List Priority → Type 0
Apart ps [] = Unit
Apart ps (p ∷ news) =
    (anyb (conflicts p) ps ≡ false) × All (λ q. conflicts q p ≡ false) news × Apart ps news

Apart-append :
    (ps news : List Priority) (p : Priority)
    → Apart ps news
    → All (λ q. conflicts q p ≡ false) news
    → Apart (ps ++ p ∷ []) news
Apart-append ps [] p h k = tt
Apart-append ps (q ∷ news) p (free, apart, h) k = (
  rw (anyb-append (conflicts q) ps (p ∷ []), free, k.0) refl,
  apart,
  Apart-append ps news p h k.1,
)

insert_priorities-Apart :
    (ps news : List Priority) → Apart ps news → insert_priorities ps news ≡ ps ++ news
insert_priorities-Apart ps [] h = sym (append-nil ps)
insert_priorities-Apart ps (p ∷ news) (free, apart, h) = rw free (
    insert_priorities-Apart (ps ++ p ∷ []) news (Apart-append ps news p h apart)
    ∙ append_assoc ps (p ∷ []) news)

insert_priorities-fresh :
    (db : Db) (draw : Draw)
    → HasOwners db
    → IsFresh db draw
    → insert_priorities db.priorities (new_priorities draw draw.user_id)
      ≡ db.priorities ++ new_priorities draw draw.user_id
insert_priorities-fresh db draw owners fresh =
    let none_yet = no_priorities db.users draw.user_id db.priorities owners.priorities fresh.user in
    let u : ℕ = draw.user_id in
    let free = λ (id : ℕ) (label : Text) (threshold : ℕ) (is_default : Bool).
      priority-free (new_priority id u label threshold is_default) db.priorities none_yet in
    insert_priorities-Apart db.priorities (new_priorities draw u) (
      free draw.priority_0 (codes "priority 0") 0 true fresh.free_0,
      (
        ground (arith, fresh.ne_01),
        (ground (arith, fresh.ne_02), (ground (arith, fresh.ne_03), tt)),
      ),
      (
        free draw.priority_1 (codes "priority 1") 5_000 false fresh.free_1,
        (ground (arith, fresh.ne_12), (ground (arith, fresh.ne_13), tt)),
        (
          free draw.priority_2 (codes "priority 2") 10_000 false fresh.free_2,
          (ground (arith, fresh.ne_23), tt),
          (free draw.priority_3 (codes "priority 3") 20_000 false fresh.free_3, tt, tt),
        ),
      ),
    )

pub create_user-fresh :
    (auth : Text) (db : Db) (draw : Draw)
    → HasOwners db
    → IsFresh db draw
    → get_user_id auth db ≡ none
    → create_user auth draw db ≡ (
        if is_taken db.users draw.slug
        then err slug_conflict
        else ok (draw.user_id, created auth draw db))
unfolding create_user get_user_id
create_user-fresh auth db draw owners fresh unknown =
    elim (Option-cases (head? (filterb (has_auth auth) db.users))) [
      | inr (w, e) ↦ absurd (cc (rw (e, get_user_id) at unknown))
      | inl e ↦
          let none_yet = no_queues db.users draw.user_id db.queues owners.queues fresh.user in
          let (no_default, no_main) =
            main_queue-free draw.queue_id draw.user_id db.queues none_yet fresh.queue in
          elim (Bool-cases (is_taken db.users draw.slug)) [
            | inl taken ↦ rw (e, create_user, taken) refl
            | inr free ↦
                rw
                  (
                    e,
                    create_user,
                    free,
                    fresh.user,
                    no_default,
                    no_main,
                    insert_priorities-fresh db draw owners fresh,
                  )
                  refl
          ]
    ]

-- The first draw whose slug no user has.
abbrev pub first_free : Db → List Draw → Option Draw
first_free db draws = head? (filterb (λ draw. not (is_taken db.users draw.slug)) draws)

pub create_with-first_free :
    (auth : Text) (db : Db) (draws : List Draw) (draw : Draw)
    → HasOwners db
    → All (IsFresh db) draws
    → get_user_id auth db ≡ none
    → first_free db draws ≡ some draw
    → create_with auth draws db ≡ some (ok (draw.user_id, created auth draw db))
unfolding create_with
create_with-first_free auth db [] draw owners fresh unknown free = absurd (cc)
create_with-first_free auth db (d ∷ draws) draw owners fresh unknown free =
    let made = create_user-fresh auth db d owners fresh.0 unknown in
    elim (Bool-cases (is_taken db.users d.slug)) [
      | inl taken ↦
          rw (made, taken)
            (create_with-first_free auth db draws draw owners fresh.1 unknown (rw taken at free))
      | inr free_slug ↦
          let same : d ≡ draw = cc (rw free_slug at free) in rw (made, free_slug, same) refl
    ]

-- Where the foreign keys hold and the draws have fresh numbers, and some draw has a slug that is free:
-- a known user keeps the number there is, and nothing changes; any other one gets the number and the
-- slug of the first such draw, with a row, a default queue and four priorities more and nothing else
-- changed.
pub get_or_create_user_id_ends :
    (auth : Text) (db : Db) (draws : List Draw) (draw : Draw)
    → HasOwners db
    → All (IsFresh db) draws
    → first_free db draws ≡ some draw
    → ((u : ℕ) × (get_user_id auth db ≡ some u)
        × (get_or_create_user_id auth draws db ≡ some (ok (u, db))))
      ⊎ ((get_user_id auth db ≡ none)
          × (get_or_create_user_id auth draws db ≡ some (ok (draw.user_id, created auth draw db))))
unfolding get_or_create_user_id
get_or_create_user_id_ends auth db draws draw owners fresh free =
    elim (Option-cases (get_user_id auth db)) [
      | inr (u, e) ↦ inl (u, e, rw (e, get_or_create_user_id) refl)
      | inl e ↦ inr (
        e,
        rw (e, get_or_create_user_id)
            (create_with-first_free auth db draws draw owners fresh e free),
      )
    ]
