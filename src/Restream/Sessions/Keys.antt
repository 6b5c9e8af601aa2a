-- ===== src/Restream/Sessions/Keys.antt =====
-- A new ingest key (apps/web/src/server/restream/store.ts).
use streambrew.Base.{
  ℕ, ◌≡◌, refl, subst, inl, inr, true, false, not, ◌&&◌, List, [], ◌∷◌, Text, text_eq, text_eq_refl,
  some, arith, head?, anyb, filterb, ◌==◌, Bool-cases, ok, err, ◌⊎◌,
}
use streambrew.Restream.Tables.{Ingest, Cipher, constraint_violated}
use streambrew.Restream.Sessions.{Db, new_ingest, ingest_check, rotated, rotate_ingest_key}

-- The primary key of the table: a user has one row at most.
abbrev pub UniqueUsers : List Ingest → Type 0
UniqueUsers [] = Unit
UniqueUsers (i ∷ is') = (anyb (λ r. r.user_id == i.user_id) is' ≡ false) × UniqueUsers is'

-- The user has the one row, no other row changes, and the hash finds the row.
pub record Replaced (i : Ingest) (before after : List Ingest) : Type 0 where
  pub only : filterb (λ r. r.user_id == i.user_id) after ≡ i ∷ []
  pub others :
      filterb (λ r. not (r.user_id == i.user_id)) after
      ≡ filterb (λ r. not (r.user_id == i.user_id)) before
  pub found : head? (filterb (λ r. text_eq r.stream_key_hash i.stream_key_hash) after) ≡ some i

no_other :
    (u : ℕ) (is' : List Ingest)
    → anyb (λ r. r.user_id == u) is' ≡ false
    → filterb (λ r. r.user_id == u) is' ≡ []
no_other u [] n = refl
no_other u (r ∷ is') n = ground (arith, no_other u is')

rotated-Replaced :
    (cipher : Cipher) (hash : Text → Text) (nonce : List ℕ) (now u : ℕ) (key : Text)
    (is' : List Ingest)
    → UniqueUsers is'
    → anyb (λ r. text_eq r.stream_key_hash (hash key) && not (r.user_id == u)) is' ≡ false
    → Replaced
        (new_ingest cipher hash nonce now u key)
        is'
        (rotated cipher hash nonce now u key is')
rotated-Replaced cipher hash nonce now u key [] one n =
    let self : (u == u) ≡ true = ground arith in
    record { only = rw self refl; others = rw self refl; found = rw (text_eq_refl (hash key)) refl }
rotated-Replaced cipher hash nonce now u key (r ∷ is') one n =
    let self : (u == u) ≡ true = ground arith in
    elim (Bool-cases (r.user_id == u)) [
      | inl mine ↦
          let same : r.user_id ≡ u = ground (arith, mine) in
          let none_left : filterb (λ q. q.user_id == u) is' ≡ [] =
            no_other u is' (subst (λ x. anyb (λ q. q.user_id == x) is' ≡ false) same one.0) in
          record {
            only = rw (mine, self, none_left) refl;
            others = rw (mine, self) refl;
            found = rw (mine, text_eq_refl (hash key)) refl;
          }
      | inr other ↦
          let miss : text_eq r.stream_key_hash (hash key) ≡ false = ground (arith, n, other) in
          let ih = rotated-Replaced cipher hash nonce now u key is' one.1 (ground (arith, n)) in
          record {
            only = rw (other, other) ih.only;
            others = rw (other, other, ih.others) refl;
            found = rw (other, miss) ih.found;
          }
    ]

-- In a table with one row of a user at most, a rotation that succeeds leaves the user one row: that of
-- the new key, hashed and encrypted, so that the old key is in no row of the user. Publishers are found
-- by the new key, and no row of another user, no session and no destination changes. Where it fails, a
-- CHECK refuses the row or another user has the hash.
pub rotate_ingest_key_cases :
    (cipher : Cipher) (hash : Text → Text) (nonce : List ℕ) (now u : ℕ) (key : Text) (db : Db)
    → UniqueUsers db.ingests
    → let i : Ingest = new_ingest cipher hash nonce now u key in
      ((rotate_ingest_key cipher hash nonce now u key db ≡ err constraint_violated)
        × ((ingest_check i ≡ false)
            ⊎ (anyb (λ r. text_eq r.stream_key_hash (hash key) && not (r.user_id == u)) db.ingests
                ≡ true)))
      ⊎ ((db' : Db) × (rotate_ingest_key cipher hash nonce now u key db ≡ ok db')
          × Replaced i db.ingests db'.ingests
          × (db'.sessions ≡ db.sessions)
          × (db'.destinations ≡ db.destinations))
unfolding rotate_ingest_key
rotate_ingest_key_cases cipher hash nonce now u key db one =
    elim (Bool-cases (ingest_check (new_ingest cipher hash nonce now u key))) [
      | inr bad ↦ inl (rw bad refl, inl bad)
      | inl fits ↦
          elim (Bool-cases
            (anyb (λ r. text_eq r.stream_key_hash (hash key) && not (r.user_id == u)) db.ingests)) [
              | inl taken ↦ inl (rw (fits, taken) refl, inr taken)
              | inr free ↦ inr (
                record db { ingests = rotated cipher hash nonce now u key db.ingests },
                rw (fits, free) refl,
                rotated-Replaced cipher hash nonce now u key db.ingests one free,
                refl,
                refl,
              )
            ]
    ]
