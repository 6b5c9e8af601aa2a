-- ===== src/Restream/Destinations/Invariant.antt =====
-- What holds of the destination table between two operations, and how one placement of a row acts
-- on the listing of a user (renumbering in apps/web/src/server/restream/store.ts).
use streambrew.Base.{
  ℕ, suc, ◌+◌, ◌≤◌, ◌<◌, ◌≡◌, refl, ◌≢◌, inl, inr, Bool, true, false, List, [], ◌∷◌, ◌++◌, map,
  arith, length, anyb, filterb, All, All-mono, All-filterb, All-order_by, All-insert_by, order_by,
  insert_by, ◌==◌, leb, eq→==, ne→==, ==→eq, Bool-cases,
}
use streambrew.Restream.Tables.{Destination, max_destinations}
use streambrew.Restream.Destinations.{rows, hits}

-- The positions are i, i + 1, … in this order.
abbrev pub Numbered : ℕ → List Destination → Type 0
Numbered i [] = Unit
Numbered i (d ∷ ds) = (d.position ≡ i) × Numbered (suc i) ds

-- The positions rise strictly, from i at the least.
abbrev pub Ascending : ℕ → List Destination → Type 0
Ascending i [] = Unit
Ascending i (d ∷ ds) = (i ≤ d.position) × Ascending (suc d.position) ds

-- PRIMARY KEY (restream_destination_id)
abbrev pub UniqueIds : List Destination → Type 0
UniqueIds [] = Unit
UniqueIds (d ∷ ds) = All (λ e. e.destination_id ≢ d.destination_id) ds × UniqueIds ds

-- Ids are unique, and every user has at most three destinations, at the places 0, 1, 2 without gaps.
pub record IsValid (ds : List Destination) : Type 0 where
  pub unique : UniqueIds ds
  pub numbered : (u : ℕ) → Numbered 0 (rows u ds)
  pub bounded : (u : ℕ) → length (rows u ds) ≤ max_destinations

pub Ascending-le : (i j : ℕ) (ds : List Destination) → i ≤ j → Ascending j ds → Ascending i ds
Ascending-le i j [] h a = tt
Ascending-le i j (d ∷ ds) h a = (omega arith, a.1)

pub Ascending-All : (i : ℕ) (ds : List Destination) → Ascending i ds → All (λ d. i ≤ d.position) ds
Ascending-All i [] a = tt
Ascending-All i (d ∷ ds) a =
    (a.0, Ascending-All i ds (Ascending-le i (suc d.position) ds (omega arith) a.1))

pub Numbered-Ascending-filterb :
    (p : Destination → Bool) (i : ℕ) (ds : List Destination)
    → Numbered i ds
    → Ascending i (filterb p ds)
Numbered-Ascending-filterb p i [] h = tt
Numbered-Ascending-filterb p i (d ∷ ds) (h, k) =
    let rest = Numbered-Ascending-filterb p (suc i) ds k in
    elim (Bool-cases (p d)) [
      | inl e ↦ rw (e, h) (omega arith, rest)
      | inr e ↦ rw e (Ascending-le i (suc i) (filterb p ds) (omega arith) rest)
    ]

pub Numbered-below :
    (i : ℕ) (ds : List Destination) → Numbered i ds → All (λ d. d.position < i + length ds) ds
Numbered-below i [] h = tt
Numbered-below i (d ∷ ds) (h, k) = (
  omega arith,
  All-mono (λ e. e.position < suc i + length ds) (λ e. e.position < i + suc (length ds))
      (λ e p. omega arith) ds (Numbered-below (suc i) ds k),
)

pub Numbered-snoc :
    (i : ℕ) (ds : List Destination) (d : Destination)
    → Numbered i ds
    → d.position ≡ i + length ds
    → Numbered i (ds ++ d ∷ [])
Numbered-snoc i [] d h e = (omega arith, tt)
Numbered-snoc i (x ∷ ds) d (h, k) e = (h, Numbered-snoc (suc i) ds d k (omega arith))

pub UniqueIds-filterb :
    (p : Destination → Bool) (ds : List Destination) → UniqueIds ds → UniqueIds (filterb p ds)
UniqueIds-filterb p [] h = tt
UniqueIds-filterb p (d ∷ ds) h = ground (arith, UniqueIds-filterb p ds h.1, All-filterb _ p ds h.0)

UniqueIds-insert_by :
    (d : Destination) (ds : List Destination)
    → All (λ e. e.destination_id ≢ d.destination_id) ds
    → UniqueIds ds
    → UniqueIds (insert_by (λ e. e.position) d ds)
UniqueIds-insert_by d [] a h = (tt, tt)
UniqueIds-insert_by d (e ∷ ds) a h = elim (Bool-cases (leb d.position e.position)) [
  | inl c ↦ rw c (a, h)
  | inr c ↦ rw c (
    All-insert_by (λ x. x.position) (λ x. x.destination_id ≢ e.destination_id) d ds
        (λ q. a.0 (ground arith)) h.0,
    UniqueIds-insert_by d ds a.1 h.1,
  )
]

UniqueIds-order_by :
    (ds : List Destination) → UniqueIds ds → UniqueIds (order_by (λ e. e.position) ds)
UniqueIds-order_by [] h = tt
UniqueIds-order_by (d ∷ ds) h =
    UniqueIds-insert_by d (order_by (λ e. e.position) ds) (All-order_by (λ e. e.position) _ ds h.0)
      (UniqueIds-order_by ds h.1)

pub UniqueIds-rows : (u : ℕ) (ds : List Destination) → UniqueIds ds → UniqueIds (rows u ds)
unfolding rows
UniqueIds-rows u ds h = UniqueIds-order_by _ (UniqueIds-filterb _ ds h)

pub UniqueIds-map :
    (f : Destination → Destination)
    → ((d : Destination) → (f d).destination_id ≡ d.destination_id)
    → (ds : List Destination) → UniqueIds ds
    → UniqueIds (map f ds)
UniqueIds-map f keeps [] h = tt
UniqueIds-map f keeps (d ∷ ds) h = (fresh ds h.0, UniqueIds-map f keeps ds h.1)
  where
    fresh :
        (es : List Destination)
        → All (λ e. e.destination_id ≢ d.destination_id) es
        → All (λ e. e.destination_id ≢ (f d).destination_id) (map f es)
    fresh [] a = tt
    fresh (e ∷ es) a = ((λ q. a.0 (cc (q, keeps e, keeps d))), fresh es a.1)

-- Every row with this id is the user's.
abbrev pub Owned : ℕ → ℕ → List Destination → Type 0
Owned u id = All (λ d. d.destination_id ≡ id → d.user_id ≡ u)

Owned-fresh :
    (u id : ℕ) (ds : List Destination) → All (λ e. e.destination_id ≢ id) ds → Owned u id ds
Owned-fresh u id ds = All-mono _ _ (λ d n e. absurd (n e)) ds

not_fresh :
    (u id : ℕ) (ds : List Destination)
    → All (λ e. e.destination_id ≢ id) ds
    → anyb (hits u id) ds ≡ false
not_fresh u id [] h = refl
not_fresh u id (d ∷ ds) h = ground (arith, not_fresh u id ds h.1, ne→== d.destination_id id h.0)

pub Owned-of_hits :
    (u id : ℕ) (ds : List Destination) → UniqueIds ds → anyb (hits u id) ds ≡ true → Owned u id ds
Owned-of_hits u id [] h k = tt
Owned-of_hits u id (d ∷ ds) h k = elim (Bool-cases (d.destination_id == id)) [
  | inl e ↦
      let same = ==→eq d.destination_id id e in
      let others : All (λ x. x.destination_id ≢ id) ds = All-mono _ _ (λ x n q. n (cc)) ds h.0 in
      ((λ _. ground (arith, not_fresh u id ds others)), Owned-fresh u id ds others)
  | inr e ↦ ((λ q. cc (eq→== d.destination_id id q)), Owned-of_hits u id ds h.1 (ground arith))
]
