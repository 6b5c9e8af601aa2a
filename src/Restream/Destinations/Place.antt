-- ===== src/Restream/Destinations/Place.antt =====
-- One update of the renumbering loop of `deleteDestination` (apps/web/src/server/restream/store.ts):
-- its place is free, and it keeps the order of the user's listing.
use streambrew.Base.{
  ℕ, suc, ◌<◌, ◌≡◌, refl, sym, ap, ◌∙◌, ◌≢◌, ◌⊎◌, inl, inr, Bool, true, false, not, ◌&&◌, List, [],
  ◌∷◌, ◌++◌, map, arith, anyb, anyb-filterb, anyb-order_by, filterb, All, All-mono, All-append,
  All-order_by_back, order_by-map, ◌==◌, leb, eq→==, ne→==, ==→eq, lt→leb, Bool-cases, ok,
}
use mathlib.Core.Path.{fun_ext}
use streambrew.Restream.Tables.{Destination, max_destinations}
use streambrew.Restream.Destinations.{rows, hits, occupied, move_to, place}
use streambrew.Restream.Destinations.Invariant.{
  Ascending, UniqueIds, Ascending-All, Owned, Owned-of_hits,
}

-- A row stands where the move of `id` from `p` down to `i` passes no other row.
abbrev pub Apart : ℕ → ℕ → ℕ → Destination → Type 0
Apart id i p d =
    ((d.destination_id ≡ id) × (d.position ≡ p))
    ⊎ ((d.destination_id ≢ id) × ((d.position < i) ⊎ (p < d.position)))

move_to-order :
    (id i p : ℕ) (d e : Destination)
    → i < p
    → Apart id i p d
    → Apart id i p e
    → leb (move_to id i d).position (move_to id i e).position ≡ leb d.position e.position
move_to-order id i p d e h a b =
    ground (arith, ne→== d.destination_id id, ne→== e.destination_id id)

filterb-move_to :
    (u id i : ℕ) (ds : List Destination)
    → filterb (λ d. d.user_id == u) (map (move_to id i) ds)
      ≡ map (move_to id i) (filterb (λ d. d.user_id == u) ds)
filterb-move_to u id i [] = refl
filterb-move_to u id i (d ∷ ds) = ground (arith, filterb-move_to u id i ds)

pub rows-move_to :
    (u id i p : ℕ) (ds : List Destination)
    → i < p
    → All (Apart id i p) (rows u ds)
    → rows u (map (move_to id i) ds) ≡ map (move_to id i) (rows u ds)
unfolding rows
rows-move_to u id i p ds h a = rw (filterb-move_to u id i ds) (
    order_by-map (λ d. d.position) (Apart id i p) (move_to id i) (λ d e. move_to-order id i p d e h)
      (filterb (λ d. d.user_id == u) ds)
      (All-order_by_back (λ (d : Destination). d.position) (Apart id i p)
        (filterb (λ d. d.user_id == u) ds) a))

map-move_to_other :
    (id i : ℕ) (ds : List Destination)
    → All (λ d. d.destination_id ≢ id) ds
    → map (move_to id i) ds ≡ ds
map-move_to_other id i [] h = refl
map-move_to_other id i (d ∷ ds) h =
    ground (arith, map-move_to_other id i ds h.1, ne→== d.destination_id id h.0)

-- The rows of another user do not move.
pub rows-move_to_other :
    (u v id i : ℕ) (ds : List Destination)
    → v ≢ u
    → Owned u id ds
    → rows v (map (move_to id i) ds) ≡ rows v ds
unfolding rows
rows-move_to_other u v id i ds n o =
    rw (filterb-move_to v id i ds, map-move_to_other id i _ (other ds o)) refl
  where
    other :
        (es : List Destination)
        → Owned u id es
        → All (λ d. d.destination_id ≢ id) (filterb (λ d. d.user_id == v) es)
    other [] h = tt
    other (d ∷ es) h = elim (Bool-cases (d.user_id == v)) [
      | inl e ↦ rw e ((λ q. n (cc (h.0 q, ==→eq d.user_id v e))), other es h.1)
      | inr e ↦ rw e (other es h.1)
    ]

-- A place is occupied in the table if it is in the user's listing.
pub occupied-rows :
    (u id p : ℕ) (ds : List Destination)
    → occupied u id p ds ≡ anyb (λ d. d.position == p && not (d.destination_id == id)) (rows u ds)
unfolding rows
occupied-rows u id p ds =
    rw
      (anyb-order_by (λ (d : Destination). d.position)
        (λ d. d.position == p && not (d.destination_id == id)) (filterb (λ d. d.user_id == u) ds))
      (sym (anyb-filterb (λ (d : Destination). d.user_id == u) _ ds))

free_of_Apart :
    (id i p : ℕ) (ds : List Destination)
    → i < p
    → All (Apart id i p) ds
    → anyb (λ d. d.position == i && not (d.destination_id == id)) ds ≡ false
free_of_Apart id i p [] h a = refl
free_of_Apart id i p (d ∷ ds) h a =
    ground (arith, free_of_Apart id i p ds h a.1, ne→== d.destination_id id)

no_conflict :
    (u id i : ℕ) (ds es : List Destination)
    → Owned u id es
    → occupied u id i ds ≡ false
    → anyb (λ d. d.destination_id == id && occupied d.user_id id i ds) es ≡ false
no_conflict u id i ds [] o f = refl
no_conflict u id i ds (d ∷ es) o f = elim (Bool-cases (d.destination_id == id)) [
  | inl e ↦ rw (e, o.0 (==→eq _ _ e), f) (no_conflict u id i ds es o.1 f)
  | inr e ↦ rw e (no_conflict u id i ds es o.1 f)
]

pub place_lem :
    (u id i p : ℕ) (ds : List Destination)
    → i < p
    → i < max_destinations
    → Owned u id ds
    → All (Apart id i p) (rows u ds)
    → place id i ds ≡ ok (map (move_to id i) ds)
unfolding place
place_lem u id i p ds h k o a =
    rw (no_conflict u id i ds ds o (occupied-rows u id i ds ∙ free_of_Apart id i p _ h a))
      (rw (lt→leb i max_destinations k))

anyb-mid {ℓ} :
    {A : Type ℓ} (p : A → Bool) (xs : List A) (y : A) (zs : List A)
    → p y ≡ true
    → anyb p (xs ++ y ∷ zs) ≡ true
anyb-mid p [] y zs h = rw h
anyb-mid p (x ∷ xs) y zs h = ground (arith, anyb-mid p xs y zs h)

pub Owned-of_rows :
    (u : ℕ) (ds front : List Destination) (d : Destination) (back : List Destination)
    → UniqueIds ds
    → rows u ds ≡ front ++ d ∷ back
    → Owned u d.destination_id ds
unfolding rows
Owned-of_rows u ds front d back h e = Owned-of_hits u d.destination_id ds h (rw swapped found)
  where
    swapped :
        anyb (hits u d.destination_id) ds
        ≡ anyb (λ x. x.user_id == u && x.destination_id == d.destination_id) ds
    swapped = ap (λ p. anyb p ds) (fun_ext λ x. ground arith)

    found : anyb (λ x. x.user_id == u && x.destination_id == d.destination_id) ds ≡ true
    found =
        sym (
          anyb-filterb (λ (x : Destination). x.user_id == u)
            (λ x. x.destination_id == d.destination_id) ds)
        ∙ sym (
            anyb-order_by (λ (x : Destination). x.position)
              (λ x. x.destination_id == d.destination_id) (filterb (λ x. x.user_id == u) ds))
        ∙ ap (anyb (λ x. x.destination_id == d.destination_id)) e
        ∙ anyb-mid _ front d back (eq→== _ _ refl)

-- The ids before and behind a row differ from its own.
pub UniqueIds-mid :
    (front : List Destination) (d : Destination) (back : List Destination)
    → UniqueIds (front ++ d ∷ back)
    → All (λ e. e.destination_id ≢ d.destination_id) front
      × All (λ e. e.destination_id ≢ d.destination_id) back
UniqueIds-mid [] d back h = (tt, h.0)
UniqueIds-mid (x ∷ front) d back h =
    let (before, behind) = UniqueIds-mid front d back h.1 in
    (((λ q. mid front h.0 (sym q)), before), behind)
  where
    mid :
        (xs : List Destination)
        → All (λ e. e.destination_id ≢ x.destination_id) (xs ++ d ∷ back)
        → d.destination_id ≢ x.destination_id
    mid [] a = a.0
    mid (y ∷ ys) a = mid ys a.1

All-and {ℓ κ μ} :
    {A : Type ℓ} (P : A → Type κ) (Q : A → Type μ) (xs : List A)
    → All P xs
    → All Q xs
    → All (λ x. P x × Q x) xs
All-and P Q [] h k = tt
All-and P Q (x ∷ xs) h k = ((h.0, k.0), All-and P Q xs h.1 k.1)

pub Apart-of_listing :
    (i : ℕ) (front : List Destination) (d : Destination) (back : List Destination)
    → UniqueIds (front ++ d ∷ back)
    → All (λ e. e.position < i) front
    → Ascending (suc d.position) back
    → All (Apart d.destination_id i d.position) (front ++ d ∷ back)
Apart-of_listing i front d back h low high =
    let (before, behind) = UniqueIds-mid front d back h in
    All-append _ front (d ∷ back)
      (All-mono _ (Apart d.destination_id i d.position) (λ e p. inr (p.0, inl p.1)) front
        (All-and _ _ front before low))
      (
        inl (refl, refl),
        All-mono _ (Apart d.destination_id i d.position) (λ e p. inr (p.0, inr p.1)) back
            (All-and _ _ back behind (Ascending-All _ back high)),
      )

pub map-append-mid :
    (id i : ℕ) (front : List Destination) (d : Destination) (back : List Destination)
    → d.destination_id ≡ id
    → All (λ e. e.destination_id ≢ id) front
    → All (λ e. e.destination_id ≢ id) back
    → map (move_to id i) (front ++ d ∷ back) ≡ front ++ record d { position = i } ∷ back
map-append-mid id i [] d back e h k =
    ground (arith, map-move_to_other id i back k, eq→== d.destination_id id e)
map-append-mid id i (x ∷ front) d back e h k =
    ground (arith, map-append-mid id i front d back e h.1 k, ne→== x.destination_id id h.0)
