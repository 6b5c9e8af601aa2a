-- ===== src/Restream/Destinations/Laws.antt =====
-- What the destination operations of RestreamStore (apps/web/src/server/restream/store.ts) do to
-- the listings of all users.
use native.Mathlib.Decide.{ℕ_discrete}
use streambrew.Base.{
  ℕ, ◌≤◌, ◌<◌, ◌≡◌, refl, sym, ap, ◌∙◌, ◌≢◌, ◌⊎◌, inl, inr, true, false, not, ◌&&◌, List, [], ◌∷◌,
  ◌++◌, arith, length, length-append, length-filterb-le, length-order_by, anyb, filterb,
  filterb-order_by, All, All-mono, order_by, insert_by_last, ◌==◌, leb, eq→==, ne→==, leb→le,
  leb-false, Bool-cases, if◌then◌else◌, ok, err,
}
use streambrew.Restream.Tables.{
  Destination, Cipher, DestinationInput, destination_limit, constraint_violated, max_destinations,
}
use streambrew.Restream.Destinations.{
  rows, hits, occupied, insert_destination, create_destination, delete_destination, row_check,
  new_destination,
}
use streambrew.Restream.Destinations.Invariant.{
  Numbered, UniqueIds, IsValid, Numbered-Ascending-filterb, Numbered-below, Numbered-snoc,
  UniqueIds-filterb,
}
use streambrew.Restream.Destinations.Renumber.{
  renumbered, renumber-Numbers, renumbered-Numbered, length-renumbered,
}
use streambrew.Restream.Destinations.Place.{occupied-rows}

-- DELETE takes the row out of the listing and leaves the order of the others.
rows-delete :
    (u v id : ℕ) (ds : List Destination)
    → rows v (filterb (λ d. not (hits u id d)) ds) ≡ filterb (λ d. not (hits u id d)) (rows v ds)
unfolding rows
rows-delete u v id ds =
    ap (order_by (λ d. d.position)) (swap ds)
    ∙ filterb-order_by (λ d. d.position) (λ d. not (hits u id d)) (filterb (λ d. d.user_id == v) ds)
  where
    swap :
        (es : List Destination)
        → filterb (λ d. d.user_id == v) (filterb (λ d. not (hits u id d)) es)
          ≡ filterb (λ d. not (hits u id d)) (filterb (λ d. d.user_id == v) es)
    swap [] = refl
    swap (d ∷ es) = ground (arith, swap es)

rows-delete_other :
    (u v id : ℕ) (ds : List Destination)
    → v ≢ u
    → rows v (filterb (λ d. not (hits u id d)) ds) ≡ rows v ds
unfolding rows
rows-delete_other u v id ds n = ap (order_by (λ d. d.position)) (same ds)
  where
    same :
        (es : List Destination)
        → filterb (λ d. d.user_id == v) (filterb (λ d. not (hits u id d)) es)
          ≡ filterb (λ d. d.user_id == v) es
    same [] = refl
    same (d ∷ es) = ground (arith, same es)

-- IsValid from the listings of one user and of all others.
IsValid-of :
    (u : ℕ) (old new : List Destination)
    → IsValid old
    → UniqueIds new
    → Numbered 0 (rows u new)
    → length (rows u new) ≤ max_destinations
    → ((v : ℕ) → v ≢ u → rows v new ≡ rows v old)
    → IsValid new
IsValid-of u old new h ids num len same = record {
  unique = ids;
  numbered = λ v. elim (ℕ_discrete v u) [ yes e ↦ rw e num | no n ↦ rw (same v n) (h.numbered v) ];
  bounded = λ v. elim (ℕ_discrete v u) [ yes e ↦ rw e len | no n ↦ rw (same v n) (h.bounded v) ];
}

by_user :
    (u : ℕ) (old new rs : List Destination)
    → rows u new ≡ rs
    → ((v : ℕ) → v ≢ u → rows v new ≡ rows v old)
    → (v : ℕ) → rows v new ≡ (if v == u then rs else rows v old)
by_user u old new rs e others v = elim (ℕ_discrete v u) [
  | yes q ↦ rw (q, eq→== u u refl) e
  | no n ↦ rw (ne→== v u n) (others v n)
]

-- In a valid table, deleting a destination that the user has always succeeds: none of the updates
-- that close the gap meets the unique position or its bound. The user's listing afterwards is the
-- old one without the row, numbered from 0 without gaps, every other user's listing is as it was,
-- and the table is valid.
pub delete_destination-renumbers :
    (u id : ℕ) (ds : List Destination)
    → IsValid ds
    → anyb (hits u id) ds ≡ true
    → (ds' : List Destination) × (delete_destination u id ds ≡ ok ds')
      × ((v : ℕ)
          → rows v ds' ≡ (
              if v == u
              then renumbered 0 (filterb (λ d. not (hits u id d)) (rows u ds))
              else rows v ds))
      × IsValid ds'
unfolding delete_destination
delete_destination-renumbers u id ds h found =
    let left : List Destination = filterb (λ d. not (hits u id d)) ds in
    let listing = rows-delete u u id ds in
    let short : length (rows u left) ≤ max_destinations = omega (
      arith,
      ap length listing,
      length-filterb-le (λ d. not (hits u id d)) (rows u ds),
      h.bounded u,
    ) in
    let done =
      renumber-Numbers u 0 [] (rows u left) left refl tt
        (rw listing (Numbered-Ascending-filterb _ 0 (rows u ds) (h.numbered u)))
        (UniqueIds-filterb _ ds h.unique) (omega arith) in
    let others : (v : ℕ) → v ≢ u → rows v done.result ≡ rows v ds =
      λ v n. done.others v n ∙ rows-delete_other u v id ds n in
    (
      done.result,
      rw found done.runs,
      by_user u ds done.result _ (done.listing ∙ ap (renumbered 0) listing) others,
      IsValid-of u ds done.result h done.unique
          (rw done.listing (renumbered-Numbered 0 (rows u left)))
          (rw (done.listing, length-renumbered 0 (rows u left)) short) others,
    )

-- A row that is put in at the end of a user's listing.
rows-insert :
    (d : Destination) (ds : List Destination)
    → All (λ e. e.position < d.position) (rows d.user_id ds)
    → rows d.user_id (d ∷ ds) ≡ rows d.user_id ds ++ d ∷ []
unfolding rows
rows-insert d ds h = rw (eq→== d.user_id d.user_id refl) (insert_by_last _ d _ h)

rows-insert_other :
    (v : ℕ) (d : Destination) (ds : List Destination) → v ≢ d.user_id → rows v (d ∷ ds) ≡ rows v ds
unfolding rows
rows-insert_other v d ds n = rw (ne→== d.user_id v (λ e. n (sym e)))

free_above :
    (id p : ℕ) (ds : List Destination)
    → All (λ e. e.position < p) ds
    → anyb (λ d. d.position == p && not (d.destination_id == id)) ds ≡ false
free_above id p [] h = refl
free_above id p (d ∷ ds) h = ground (arith, free_above id p ds h.1, ne→== d.position p)

fresh-All :
    (id : ℕ) (ds : List Destination)
    → anyb (λ e. e.destination_id == id) ds ≡ false
    → All (λ e. e.destination_id ≢ id) ds
fresh-All id [] h = tt
fresh-All id (d ∷ ds) h = ((λ q. cc (eq→== d.destination_id id q)), fresh-All id ds (ground arith))

length-rows :
    (u : ℕ) (ds : List Destination) → length (filterb (λ d. d.user_id == u) ds) ≡ length (rows u ds)
unfolding rows
length-rows u ds = sym (length-order_by (λ (d : Destination). d.position) _)

-- In a valid table and with a fresh id: three destinations already give the limit error. With fewer, a
-- row that its CHECKs refuse is the error of the database, and any other row, under the given id and
-- with its key encrypted, comes last in the user's listing: no other constraint is violated, no other
-- listing changes, and the table stays valid.
pub create_destination_appends :
    (c : Cipher) (nonce : List ℕ) (id now u : ℕ) (input : DestinationInput) (ds : List Destination)
    → IsValid ds
    → anyb (λ e. e.destination_id == id) ds ≡ false
    → let d : Destination = new_destination c nonce id now u (length (rows u ds)) input in
      ((length (rows u ds) ≡ max_destinations)
        × (create_destination c nonce id now u input ds ≡ err destination_limit))
      ⊎ ((length (rows u ds) < max_destinations)
          × (((row_check d ≡ false)
                × (create_destination c nonce id now u input ds ≡ err constraint_violated))
              ⊎ ((row_check d ≡ true)
                  × ((ds' : List Destination) × (create_destination c nonce id now u input ds
                        ≡ ok ds')
                      × ((v : ℕ) → rows v ds' ≡ (if v == u then rows u ds ++ d ∷ [] else rows v ds))
                      × (d.destination_id ≡ id)
                      × (d.enabled ≡ true)
                      × (d.stream_key_ciphertext ≡ c.encrypt nonce input.stream_key)
                      × IsValid ds'))))
unfolding create_destination insert_destination new_destination
create_destination_appends c nonce id now u input ds h fresh =
    let d : Destination = new_destination c nonce id now u (length (rows u ds)) input in
    elim (Bool-cases (leb max_destinations (length (rows u ds)))) [
      | inl full ↦ inl (omega (arith, h.bounded u, leb→le _ _ full), rw (length-rows u ds, full))
      | inr room ↦
          let below' : All (λ e. e.position < d.position) (rows u ds) =
            All-mono _ _ (λ e p. omega arith) (rows u ds)
              (Numbered-below 0 (rows u ds) (h.numbered u)) in
          let listing = rows-insert d ds below' in
          let others : (v : ℕ) → v ≢ u → rows v (d ∷ ds) ≡ rows v ds =
            λ v n. rows-insert_other v d ds n in
          let free : occupied u id (length (rows u ds)) ds ≡ false =
            occupied-rows u id (length (rows u ds)) ds
            ∙ free_above id (length (rows u ds)) (rows u ds) below' in
          let few : length (rows u ds) < max_destinations = leb-false _ _ room in
          inr (
            few,
            elim (Bool-cases (row_check d)) [
              | inr refused ↦ inl (refused, rw (length-rows u ds, room) (rw refused refl))
              | inl fits ↦ inr (
                fits,
                (
                  d ∷ ds,
                  rw (length-rows u ds, room) (rw fits (rw fresh (rw free))),
                  by_user u ds (d ∷ ds) _ listing others,
                  refl,
                  refl,
                  refl,
                  IsValid-of u ds (d ∷ ds) h (fresh-All id ds fresh, h.unique)
                      (rw listing (Numbered-snoc 0 (rows u ds) d (h.numbered u) (omega arith)))
                      (omega (arith, ap length listing, length-append (rows u ds) (d ∷ []), few))
                      others,
                ),
              )
            ],
          )
    ]
