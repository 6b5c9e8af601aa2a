-- ===== src/Restream/Destinations/Edits.antt =====
-- `updateDestination` and `setDestinationEnabled` of RestreamStore
-- (apps/web/src/server/restream/store.ts): they edit one row in its place.
use streambrew.Base.{
  ℕ, ◌≡◌, refl, ◌∙◌, ◌⊎◌, inl, inr, Bool, true, not, ◌&&◌, false, List, [], ◌∷◌, map, Text, Option,
  none, some, arith, length-map, anyb, filterb, All-of, order_by-map, ◌==◌, Bool-cases,
  if◌then◌else◌, ok, err,
}
use streambrew.Restream.Tables.{
  Platform, Destination, Cipher, destination_not_found, constraint_violated,
}
use streambrew.Restream.Destinations.{
  rows, hits, update_hits, row_check, update_checked, stream_key_hint, update_destination,
  set_destination_enabled,
}
use streambrew.Restream.Destinations.Invariant.{Numbered, IsValid, UniqueIds-map}

-- An edit that leaves id, owner and place alone.
record Keeps (f : Destination → Destination) : Type 0 where
  id : (d : Destination) → (f d).destination_id ≡ d.destination_id
  user : (d : Destination) → (f d).user_id ≡ d.user_id
  place : (d : Destination) → (f d).position ≡ d.position

filterb-map :
    (v : ℕ) (f : Destination → Destination) (ds : List Destination)
    → Keeps f
    → filterb (λ d. d.user_id == v) (map f ds) ≡ map f (filterb (λ d. d.user_id == v) ds)
filterb-map v f [] k = refl
filterb-map v f (d ∷ ds) k = ground (arith, k.user d, filterb-map v f ds k)

rows-map :
    (v : ℕ) (f : Destination → Destination) (ds : List Destination)
    → Keeps f
    → rows v (map f ds) ≡ map f (rows v ds)
unfolding rows
rows-map v f ds k = rw (filterb-map v f ds k) (
    order_by-map (λ d. d.position) (λ d. Unit {0}) f
      (λ d e _ _. ground (arith, k.place d, k.place e)) (filterb (λ d. d.user_id == v) ds)
      (All-of (λ d. Unit {0}) (λ d. tt) (filterb (λ d. d.user_id == v) ds)))

Numbered-map :
    (i : ℕ) (f : Destination → Destination) (ds : List Destination)
    → Keeps f
    → Numbered i ds
    → Numbered i (map f ds)
Numbered-map i f [] k h = tt
Numbered-map i f (d ∷ ds) k h = (k.place d ∙ h.0, Numbered-map _ f ds k h.1)

-- The outcome of an edit: without a hit the error, and otherwise every listing edited row by row.
abbrev pub Edits :
    ℕ → ℕ → (Destination → Destination) → List Destination → List Destination → Type 0
Edits u id f ds ds' =
    ((v : ℕ) → rows v ds' ≡ map (λ d. if hits u id d then f d else d) (rows v ds)) × IsValid ds'

update_hits-Edits :
    (u id : ℕ) (f : Destination → Destination) (ds : List Destination)
    → Keeps f
    → IsValid ds
    → ((anyb (hits u id) ds ≡ false) × (update_hits u id f ds ≡ err destination_not_found))
      ⊎ ((ds' : List Destination) × (update_hits u id f ds ≡ ok ds') × Edits u id f ds ds')
update_hits-Edits u id f ds k h = elim (Bool-cases (anyb (hits u id) ds)) [
  | inr miss ↦ inl (miss, rw miss)
  | inl hit ↦
      let g : Destination → Destination = λ d. if hits u id d then f d else d in
      let kg : Keeps g = record {
        id = λ d. ground (arith, k.id d);
        user = λ d. ground (arith, k.user d);
        place = λ d. ground (arith, k.place d);
      } in
      inr (
        map g ds,
        rw hit,
        (
          (λ v. rows-map v g ds kg),
          record {
            unique = UniqueIds-map g kg.id ds h.unique;
            numbered =
                λ v. rw (rows-map v g ds kg) (Numbered-map 0 g (rows v ds) kg (h.numbered v));
            bounded = λ v. rw (rows-map v g ds kg, length-map g (rows v ds)) (h.bounded v);
          },
        ),
      )
]

-- In a valid table, enabling or disabling a destination that the user does not have fails, with the
-- table as it was. Otherwise every user's listing keeps its rows and their order, the row that is
-- hit gets the flag and the time, no other row changes, and the table stays valid.
pub set_destination_enabled-Edits :
    (now u id : ℕ) (enabled : Bool) (ds : List Destination)
    → IsValid ds
    → ((anyb (hits u id) ds ≡ false)
        × (set_destination_enabled now u id enabled ds ≡ err destination_not_found))
      ⊎ ((ds' : List Destination) × (set_destination_enabled now u id enabled ds ≡ ok ds')
          × Edits u id (λ d. record d { enabled = enabled; updated_at = now }) ds ds')
unfolding set_destination_enabled
set_destination_enabled-Edits now u id enabled ds h =
    update_hits-Edits u id (λ d. record d { enabled = enabled; updated_at = now }) ds
      (record { id = λ d. refl; user = λ d. refl; place = λ d. refl }) h

-- What `updateDestination` makes of the row that it hits: without a new stream key the old key and
-- its hint stay.
abbrev pub edited :
    Cipher → List ℕ → ℕ → Platform → Text → Text → Option Text → Destination → Destination
edited cipher nonce now platform label server_url none d = record d {
  platform = platform;
  label = label;
  server_url = server_url;
  updated_at = now;
}
edited cipher nonce now platform label server_url (some key) d = record d {
  platform = platform;
  label = label;
  server_url = server_url;
  stream_key_ciphertext = cipher.encrypt nonce key;
  stream_key_hint = stream_key_hint key;
  updated_at = now;
}

-- The rows that are hit would be refused by their CHECKs.
abbrev pub refused : ℕ → ℕ → (Destination → Destination) → List Destination → Bool
refused u id f ds = anyb (λ d. hits u id d && not (row_check (f d))) ds

missed-refused :
    (u id : ℕ) (f : Destination → Destination) (ds : List Destination)
    → anyb (hits u id) ds ≡ false
    → refused u id f ds ≡ false
missed-refused u id f [] h = refl
missed-refused u id f (d ∷ ds) h = ground (arith, h, missed-refused u id f ds)

update_checked-Edits :
    (u id : ℕ) (f : Destination → Destination) (ds : List Destination)
    → Keeps f
    → IsValid ds
    → ((anyb (hits u id) ds ≡ false) × (update_checked u id f ds ≡ err destination_not_found))
      ⊎ (((refused u id f ds ≡ true) × (update_checked u id f ds ≡ err constraint_violated))
          ⊎ ((refused u id f ds ≡ false)
              × ((ds' : List Destination) × (update_checked u id f ds ≡ ok ds')
                  × Edits u id f ds ds')))
unfolding update_checked
update_checked-Edits u id f ds k h = elim (update_hits-Edits u id f ds k h) [
  | inl (miss, e) ↦ inl (miss, rw (missed-refused u id f ds miss) e)
  | inr (ds', e, edits) ↦ elim (Bool-cases (refused u id f ds)) [
    | inl bad ↦ inr (inl (bad, rw bad refl))
    | inr good ↦ inr (inr (good, (ds', rw good e, edits)))
  ]
]

-- In a valid table, updating a destination that the user does not have fails, and so does an update
-- whose row the CHECKs refuse, with the table as it was. Otherwise the row that is hit gets the new
-- platform, label, server and time, and, only where a stream key is given, that key encrypted and its
-- hint. Every listing keeps its order, no other row changes, and the table stays valid.
pub update_destination-Edits :
    (c : Cipher) (nonce : List ℕ) (now u id : ℕ) (platform : Platform) (label server_url : Text)
    (key : Option Text) (ds : List Destination)
    → IsValid ds
    → let f = edited c nonce now platform label server_url key in
      let after = update_destination c nonce now u id platform label server_url key ds in
      ((anyb (hits u id) ds ≡ false) × (after ≡ err destination_not_found))
      ⊎ (((refused u id f ds ≡ true) × (after ≡ err constraint_violated))
          ⊎ ((refused u id f ds ≡ false)
              × ((ds' : List Destination) × (after ≡ ok ds') × Edits u id f ds ds')))
unfolding update_destination
update_destination-Edits c nonce now u id platform label server_url none ds h =
    update_checked-Edits u id (edited c nonce now platform label server_url none) ds
      (record { id = λ d. refl; user = λ d. refl; place = λ d. refl }) h
update_destination-Edits c nonce now u id platform label server_url (some key) ds h =
    update_checked-Edits u id (edited c nonce now platform label server_url (some key)) ds
      (record { id = λ d. refl; user = λ d. refl; place = λ d. refl }) h
