-- ===== src/VideoQueue/Users/Valid.antt =====
-- What the calls on users keep (apps/web/src/server/sensors/db/store.ts): slugs without two owners,
-- and what every user has.
use streambrew.Base.{
  ℕ, ◌≡◌, refl, Bool, true, false, ◌&&◌, List, [], ◌∷◌, ◌++◌, append-nil, Text, text_eq, arith,
  length, filterb, anyb, ◌==◌, ==_refl, All, All-mono, All-append,
}
use streambrew.VideoQueue.Queues.{Queue}
use streambrew.VideoQueue.Queues.Default.{defaults}
use streambrew.VideoQueue.Tables.{Priority, User, Db}
use streambrew.VideoQueue.Users.{Draw, new_user, main_queue, new_priorities, is_user}
use streambrew.VideoQueue.Users.Created.{
  HasOwners, IsFresh, created, is_taken, anyb-append, no_queues,
}

-- The key user_slug_key.
abbrev pub UniqueSlugs : List User → Type 0
UniqueSlugs [] = Unit
UniqueSlugs (w ∷ ws) = (is_taken ws w.slug ≡ false) × UniqueSlugs ws

-- The primary key.
abbrev pub UniqueUsers : List User → Type 0
UniqueUsers [] = Unit
UniqueUsers (w ∷ ws) = (anyb (is_user w.user_id) ws ≡ false) × UniqueUsers ws

abbrev pub has_default : ℕ → List Priority → Bool
has_default u ps = anyb (λ p. p.user_id == u && p.is_default) ps

-- What a user has: one default queue, and a priority for what pays least.
abbrev pub IsEquipped : Db → User → Type 0
IsEquipped db w =
    (length (defaults w.user_id db.queues) ≡ 1) × (has_default w.user_id db.priorities ≡ true)

pub record IsValid (db : Db) : Type 0 where
  pub ids : UniqueUsers db.users
  pub slugs : UniqueSlugs db.users
  pub owners : HasOwners db
  pub equipped : All (IsEquipped db) db.users

pub text_eq_sym : (s t : Text) → text_eq s t ≡ text_eq t s
text_eq_sym [] [] = refl
text_eq_sym (a ∷ s) [] = refl
text_eq_sym [] (b ∷ t) = refl
text_eq_sym (a ∷ s) (b ∷ t) = ground (arith, text_eq_sym s t)

append-UniqueSlugs :
    (us : List User) (w : User)
    → UniqueSlugs us
    → is_taken us w.slug ≡ false
    → UniqueSlugs (us ++ w ∷ [])
append-UniqueSlugs [] w h free = (refl, tt)
append-UniqueSlugs (v ∷ us) w h free = (
  rw (anyb-append (λ x. text_eq x.slug v.slug) us (w ∷ []))
      (ground (arith, free, h.0, text_eq_sym v.slug w.slug)),
  append-UniqueSlugs us w h.1 (ground (arith, free)),
)

append-UniqueUsers :
    (us : List User) (w : User)
    → UniqueUsers us
    → anyb (is_user w.user_id) us ≡ false
    → UniqueUsers (us ++ w ∷ [])
append-UniqueUsers [] w h free = (refl, tt)
append-UniqueUsers (v ∷ us) w h free = (
  rw (anyb-append (is_user v.user_id) us (w ∷ [])) (ground (arith, free, h.0)),
  append-UniqueUsers us w h.1 (ground (arith, free)),
)

filterb-append {ℓ} :
    {A : Type ℓ} (p : A → Bool) (xs ys : List A)
    → filterb p (xs ++ ys) ≡ filterb p xs ++ filterb p ys
filterb-append p [] ys = refl
filterb-append p (x ∷ xs) ys = ground (arith, filterb-append p xs ys)

longer {ℓ} :
    {A : Type ℓ} (p : A → Bool) (xs ys : List A) → anyb p xs ≡ true → anyb p (xs ++ ys) ≡ true
longer p xs ys h = rw (anyb-append p xs ys, h) refl

no_defaults : (u : ℕ) (qs : List Queue) → anyb (λ q. q.user_id == u) qs ≡ false → defaults u qs ≡ []
no_defaults u [] h = refl
no_defaults u (q ∷ qs) h = ground (arith, no_defaults u qs)

still-IsEquipped :
    (auth : Text) (db : Db) (draw : Draw) (w : User)
    → (w.user_id == draw.user_id) ≡ false
    → IsEquipped db w
    → IsEquipped (created auth draw db) w
still-IsEquipped auth db draw w other (one, base) =
    let differs : (draw.user_id == w.user_id) ≡ false = ground (arith, other) in
    (
      rw
          (
            filterb-append (λ q. q.user_id == w.user_id && q.is_default) db.queues
                (main_queue draw.queue_id draw.user_id ∷ []),
            differs,
            append-nil (defaults w.user_id db.queues),
          )
          one,
      longer (λ p. p.user_id == w.user_id && p.is_default) db.priorities
          (new_priorities draw draw.user_id) base,
    )

all-IsEquipped :
    (auth : Text) (db : Db) (draw : Draw) (us : List User)
    → anyb (is_user draw.user_id) us ≡ false
    → All (IsEquipped db) us
    → All (IsEquipped (created auth draw db)) us
all-IsEquipped auth db draw [] h k = tt
all-IsEquipped auth db draw (w ∷ us) h k = (
  still-IsEquipped auth db draw w (ground (arith, h)) k.0,
  all-IsEquipped auth db draw us (ground (arith, h)) k.1,
)

new-IsEquipped :
    (auth : Text) (db : Db) (draw : Draw)
    → HasOwners db
    → IsFresh db draw
    → IsEquipped (created auth draw db) (new_user auth draw)
new-IsEquipped auth db draw owners fresh =
    let none_yet = no_queues db.users draw.user_id db.queues owners.queues fresh.user in
    (
      rw
          (
            filterb-append (λ q. q.user_id == draw.user_id && q.is_default) db.queues
                (main_queue draw.queue_id draw.user_id ∷ []),
            no_defaults draw.user_id db.queues none_yet,
            ==_refl draw.user_id,
          )
          refl,
      rw
          (
            anyb-append (λ p. p.user_id == draw.user_id && p.is_default) db.priorities
                (new_priorities draw draw.user_id),
            ==_refl draw.user_id,
          )
          (ground arith),
    )

created-HasOwners :
    (auth : Text) (db : Db) (draw : Draw) → HasOwners db → HasOwners (created auth draw db)
created-HasOwners auth db draw h =
    let new : List User = new_user auth draw ∷ [] in
    let u : ℕ = draw.user_id in
    let its : anyb (is_user u) (db.users ++ new) ≡ true =
      rw (anyb-append (is_user u) db.users new, ==_refl u) (ground arith) in
    record {
      queues =
          All-append (λ q. anyb (is_user q.user_id) (db.users ++ new) ≡ true) db.queues
            (main_queue draw.queue_id u ∷ [])
            (All-mono (λ q. anyb (is_user q.user_id) db.users ≡ true)
              (λ q. anyb (is_user q.user_id) (db.users ++ new) ≡ true)
              (λ q. longer (is_user q.user_id) db.users new) db.queues h.queues)
            (its, tt);
      priorities =
          All-append (λ p. anyb (is_user p.user_id) (db.users ++ new) ≡ true) db.priorities
            (new_priorities draw u)
            (All-mono (λ p. anyb (is_user p.user_id) db.users ≡ true)
              (λ p. anyb (is_user p.user_id) (db.users ++ new) ≡ true)
              (λ p. longer (is_user p.user_id) db.users new) db.priorities h.priorities)
            (its, (its, (its, (its, tt))));
    }

pub created-IsValid :
    (auth : Text) (db : Db) (draw : Draw)
    → IsValid db
    → IsFresh db draw
    → is_taken db.users draw.slug ≡ false
    → IsValid (created auth draw db)
created-IsValid auth db draw h fresh free = record {
  ids = append-UniqueUsers db.users (new_user auth draw) h.ids fresh.user;
  slugs = append-UniqueSlugs db.users (new_user auth draw) h.slugs free;
  owners = created-HasOwners auth db draw h.owners;
  equipped =
      All-append (IsEquipped (created auth draw db)) db.users (new_user auth draw ∷ [])
        (all-IsEquipped auth db draw db.users fresh.user h.equipped)
        (new-IsEquipped auth db draw h.owners fresh, tt);
}
