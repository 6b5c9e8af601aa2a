-- ===== src/VideoQueue/Users/Always.antt =====
-- What every sequence of calls on users keeps (apps/web/src/server/sensors/db/store.ts).
use streambrew.Base.{
  ℕ, ◌≤◌, ◌≡◌, ◌∙◌, refl, sym, ap, inl, inr, true, false, not, ◌&&◌, List, [], ◌∷◌, map, Text,
  text_eq, text_eq_sound, none, arith, length, anyb, ==→eq, Bool-cases, Option-cases, All, All-mono,
}
use streambrew.VideoQueue.Tables.{User, Db}
use streambrew.VideoQueue.Users.{
  Draw, get_user_id, create_with, get_or_create_user_id, is_user, with_slug, set_slug,
  PublicQueueSettings, with_settings, set_public_queue_settings, UserCall, sign_in, rename, publish,
  signed_in, user_step, user_run,
}
use streambrew.VideoQueue.Users.Created.{IsFresh, is_taken, create_user-fresh}
use streambrew.VideoQueue.Users.Valid.{
  UniqueSlugs, UniqueUsers, IsEquipped, IsValid, created-IsValid, text_eq_sym,
}
use streambrew.VideoQueue.Shared.{users_with}

-- A call that draws does so from the sequences.
abbrev pub IsFreshCall : Db → UserCall → Type 0
IsFreshCall db (sign_in auth draws) = All (IsFresh db) draws
IsFreshCall db (rename u slug) = Unit
IsFreshCall db (publish u settings) = Unit

abbrev pub AreFresh : Db → List UserCall → Type 0
AreFresh db [] = Unit
AreFresh db (c ∷ cs) = IsFreshCall db c × AreFresh (user_step db c) cs

create_with-IsValid :
    (auth : Text) (draws : List Draw) (db : Db)
    → IsValid db
    → get_user_id auth db ≡ none
    → All (IsFresh db) draws
    → IsValid (signed_in db (create_with auth draws db))
unfolding create_with
create_with-IsValid auth [] db h unknown fresh = h
create_with-IsValid auth (draw ∷ draws) db h unknown fresh =
    let made = create_user-fresh auth db draw h.owners fresh.0 unknown in
    elim (Bool-cases (is_taken db.users draw.slug)) [
      | inl taken ↦ rw (made, taken) (create_with-IsValid auth draws db h unknown fresh.1)
      | inr free ↦ rw (made, free) (created-IsValid auth db draw h fresh.0 free)
    ]

-- An update of the users that keeps their numbers.
module _ (f : User → User) (keeps : (w : User) → (f w).user_id ≡ w.user_id) where
  same_users : (u : ℕ) (us : List User) → anyb (is_user u) (map f us) ≡ anyb (is_user u) us
  same_users u [] = refl
  same_users u (w ∷ us) = rw (keeps w, same_users u us) refl

  map-UniqueUsers : (us : List User) → UniqueUsers us → UniqueUsers (map f us)
  map-UniqueUsers [] h = tt
  map-UniqueUsers (w ∷ us) h = (rw (keeps w, same_users w.user_id us) h.0, map-UniqueUsers us h.1)

  map-IsValid :
      (db : Db)
      → UniqueSlugs (map f db.users)
      → IsValid db
      → IsValid (record db { users = map f db.users })
  map-IsValid db slugs h = record {
    ids = map-UniqueUsers db.users h.ids;
    slugs = slugs;
    owners = record {
      queues =
          All-mono (λ q. anyb (is_user q.user_id) db.users ≡ true)
            (λ q. anyb (is_user q.user_id) (map f db.users) ≡ true)
            (λ q e. same_users q.user_id db.users ∙ e) db.queues h.owners.queues;
      priorities =
          All-mono (λ p. anyb (is_user p.user_id) db.users ≡ true)
            (λ p. anyb (is_user p.user_id) (map f db.users) ≡ true)
            (λ p e. same_users p.user_id db.users ∙ e) db.priorities h.owners.priorities;
    };
    equipped = equip db.users h.equipped;
  }
    where
      equip :
          (us : List User)
          → All (IsEquipped db) us
          → All (IsEquipped (record db { users = map f db.users })) (map f us)
      equip [] k = tt
      equip (w ∷ us) k = (rw (keeps w) k.0, equip us k.1)

settings-keep :
    (u : ℕ) (s : PublicQueueSettings) (w : User) → (with_settings u s w).user_id ≡ w.user_id
settings-keep u s w = ground arith

settings-slugs :
    (u : ℕ) (s : PublicQueueSettings) (slug : Text) (us : List User)
    → is_taken (map (with_settings u s) us) slug ≡ is_taken us slug
settings-slugs u s slug [] = refl
settings-slugs u s slug (w ∷ us) = ground (arith, settings-slugs u s slug us)

settings-UniqueSlugs :
    (u : ℕ) (s : PublicQueueSettings) (us : List User)
    → UniqueSlugs us
    → UniqueSlugs (map (with_settings u s) us)
settings-UniqueSlugs u s [] h = tt
settings-UniqueSlugs u s (w ∷ us) h = elim (Bool-cases (is_user u w)) [
  | inl e ↦ rw e (settings-slugs u s w.slug us ∙ h.0, settings-UniqueSlugs u s us h.1)
  | inr e ↦ rw e (settings-slugs u s w.slug us ∙ h.0, settings-UniqueSlugs u s us h.1)
]

slug-keep : (u : ℕ) (slug : Text) (w : User) → (with_slug u slug w).user_id ≡ w.user_id
slug-keep u slug w = ground arith

-- The others' slugs are not the new one.
renamed-taken :
    (u : ℕ) (slug s : Text) (us : List User)
    → is_taken us s ≡ false
    → text_eq slug s ≡ false
    → is_taken (map (with_slug u slug) us) s ≡ false
renamed-taken u slug s [] h k = refl
renamed-taken u slug s (w ∷ us) h k = ground (arith, renamed-taken u slug s us)

nobody_else :
    (u : ℕ) (slug : Text) (us : List User)
    → anyb (is_user u) us ≡ false
    → anyb (λ w. text_eq w.slug slug && not (is_user u w)) us ≡ false
    → is_taken (map (with_slug u slug) us) slug ≡ false
nobody_else u slug [] h k = refl
nobody_else u slug (w ∷ us) h k = ground (arith, nobody_else u slug us)

slug-UniqueSlugs :
    (u : ℕ) (slug : Text) (us : List User)
    → UniqueUsers us
    → UniqueSlugs us
    → anyb (λ w. text_eq w.slug slug && not (is_user u w)) us ≡ false
    → UniqueSlugs (map (with_slug u slug) us)
slug-UniqueSlugs u slug [] ids h free = tt
slug-UniqueSlugs u slug (w ∷ us) ids h free =
    let rest : anyb (λ w. text_eq w.slug slug && not (is_user u w)) us ≡ false =
      ground (arith, free) in
    let ih = slug-UniqueSlugs u slug us ids.1 h.1 rest in
    elim (Bool-cases (is_user u w)) [
      | inl e ↦
          let gone : anyb (is_user u) us ≡ false =
            ap (λ n. anyb (is_user n) us) (sym (==→eq w.user_id u e)) ∙ ids.0 in
          rw e (nobody_else u slug us gone rest, ih)
      | inr e ↦
          let other : text_eq slug w.slug ≡ false =
            ground (arith, free, e, text_eq_sym slug w.slug) in
          rw e (renamed-taken u slug w.slug us h.0 other, ih)
    ]

user_step-IsValid :
    (db : Db) (c : UserCall) → IsValid db → IsFreshCall db c → IsValid (user_step db c)
unfolding user_step get_or_create_user_id set_slug set_public_queue_settings
user_step-IsValid db (sign_in auth draws) h fresh = elim (Option-cases (get_user_id auth db)) [
  | inr (u, e) ↦ rw (e, user_step, get_or_create_user_id) h
  | inl e ↦ rw (e, user_step, get_or_create_user_id) (create_with-IsValid auth draws db h e fresh)
]
user_step-IsValid db (rename u slug) h fresh =
    elim (Bool-cases (anyb (λ w. text_eq w.slug slug && not (is_user u w)) db.users)) [
      | inl taken ↦ rw (taken, user_step, set_slug) h
      | inr free ↦
          rw (free, user_step, set_slug)
            (map-IsValid (with_slug u slug) (slug-keep u slug) db
              (slug-UniqueSlugs u slug db.users h.ids h.slugs free) h)
    ]
user_step-IsValid db (publish u settings) h fresh =
    map-IsValid (with_settings u settings) (settings-keep u settings) db
      (settings-UniqueSlugs u settings db.users h.slugs) h

user_run-IsValid :
    (db : Db) (cs : List UserCall) → IsValid db → AreFresh db cs → IsValid (user_run db cs)
unfolding user_run
user_run-IsValid db [] h fresh = h
user_run-IsValid db (c ∷ cs) h fresh =
    user_run-IsValid (user_step db c) cs (user_step-IsValid db c h fresh.0) fresh.1

none-with_slug : (slug : Text) (us : List User) → is_taken us slug ≡ false → users_with slug us ≡ []
none-with_slug slug [] h = refl
none-with_slug slug (w ∷ us) h = ground (arith, none-with_slug slug us)

one-with_slug : (slug : Text) (us : List User) → UniqueSlugs us → length (users_with slug us) ≤ 1
one-with_slug slug [] h = omega arith
one-with_slug slug (w ∷ us) h = elim (Bool-cases (text_eq w.slug slug)) [
  | inl e ↦
      let alone =
        none-with_slug slug us (ap (is_taken us) (sym (text_eq_sound w.slug slug e)) ∙ h.0) in
      rw (e, alone) (omega arith)
  | inr e ↦ rw e (one-with_slug slug us h.1)
]

-- Where the tables are valid at first and the draws of the calls have fresh numbers, whatever the
-- calls are: no two users come to have one slug, so a shared queue is that of one user, and every user
-- has exactly one default queue and a default priority.
pub calls_keep_users :
    (db : Db) (cs : List UserCall)
    → IsValid db
    → AreFresh db cs
    → IsValid (user_run db cs)
      × ((slug : Text) → length (users_with slug (user_run db cs).users) ≤ 1)
calls_keep_users db cs h fresh =
    let after = user_run-IsValid db cs h fresh in
    (after, λ slug. one-with_slug slug (user_run db cs).users after.slugs)
