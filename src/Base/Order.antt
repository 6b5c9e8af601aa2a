-- ===== src/Base/Order.antt =====
-- `ORDER BY key`: a stable insertion sort of rows by a number, and how it meets tests and maps.
use Prim.Native.Nat.{ℕ, suc, ◌≤◌, ◌<◌}
use mathlib.Core.Path.{◌≡◌, refl}
use mathlib.Core.Bool.{Bool, ◌||◌}
use mathlib.Core.Logic.{inl, inr}
use mathlib.Core.List.{List, [], ◌∷◌, ◌++◌, map}
use native.Mathlib.Nat.{le_trans}
use native.Mathlib.Omega.{arith}
use streambrew.Base.Tests.{if◌then◌else◌, leb, leb→le, le→leb, Bool-cases}
use streambrew.Base.Lists.{All, All-mono, All-filterb, anyb, filterb, length}

module _ {ℓ} {A : Type ℓ} (key : A → ℕ) where
  abbrev pub insert_by : A → List A → List A
  insert_by x [] = x ∷ []
  insert_by x (y ∷ ys) = if leb (key x) (key y) then x ∷ y ∷ ys else y ∷ insert_by x ys

  abbrev pub order_by : List A → List A
  order_by [] = []
  order_by (x ∷ xs) = insert_by x (order_by xs)

module _ {ℓ} {A : Type ℓ} (key : A → ℕ) where
  anyb-insert_by :
      (p : A → Bool) (x : A) (xs : List A) → anyb p (insert_by key x xs) ≡ (p x || anyb p xs)
  anyb-insert_by p x [] = refl
  anyb-insert_by p x (y ∷ ys) = ground (arith, anyb-insert_by p x ys)

  pub anyb-order_by : (p : A → Bool) (xs : List A) → anyb p (order_by key xs) ≡ anyb p xs
  anyb-order_by p [] = refl
  anyb-order_by p (x ∷ xs) =
      ground (arith, anyb-order_by p xs, anyb-insert_by p x (order_by key xs))

  pub length-insert_by : (x : A) (xs : List A) → length (insert_by key x xs) ≡ suc (length xs)
  length-insert_by x [] = refl
  length-insert_by x (y ∷ ys) = ground (arith, length-insert_by x ys)

  pub length-order_by : (xs : List A) → length (order_by key xs) ≡ length xs
  length-order_by [] = refl
  length-order_by (x ∷ xs) =
      ground (arith, length-order_by xs, length-insert_by x (order_by key xs))

  -- A row above all others comes last.
  pub insert_by_last :
      (x : A) (xs : List A) → All (λ y. key y < key x) xs → insert_by key x xs ≡ xs ++ x ∷ []
  insert_by_last x [] h = refl
  insert_by_last x (y ∷ ys) h = ground (arith, insert_by_last x ys h.1, h.0)

module _ {ℓ κ} {A : Type ℓ} (key : A → ℕ) (P : A → Type κ) where
  pub All-insert_by : (x : A) (xs : List A) → P x → All P xs → All P (insert_by key x xs)
  All-insert_by x [] p h = (p, tt)
  All-insert_by x (y ∷ ys) p h = ground (arith, All-insert_by x ys p h.1, h.0)

  pub All-order_by : (xs : List A) → All P xs → All P (order_by key xs)
  All-order_by [] h = tt
  All-order_by (x ∷ xs) h = All-insert_by x (order_by key xs) h.0 (All-order_by xs h.1)

  pub All-order_by_back : (xs : List A) → All P (order_by key xs) → All P xs
  All-order_by_back [] h = tt
  All-order_by_back (x ∷ xs) h =
      let (p, q) = All-insert_by_back x (order_by key xs) h in (p, All-order_by_back xs q)
    where
      All-insert_by_back : (x : A) (xs : List A) → All P (insert_by key x xs) → P x × All P xs
      All-insert_by_back x [] h = (h.0, tt)
      All-insert_by_back x (y ∷ ys) h = elim (Bool-cases (leb (key x) (key y))) [
        | inl e ↦ rw e at h
        | inr e ↦ let k = (rw e at h) in let (p, q) = All-insert_by_back x ys k.1 in (p, (k.0, q))
      ]

-- An update that keeps every comparison keeps the order.
module _ {ℓ κ} {A : Type ℓ} (key : A → ℕ) (P : A → Type κ) (f : A → A)
    (agrees : (r s : A) → P r → P s → leb (key (f r)) (key (f s)) ≡ leb (key r) (key s)) where
  insert_by-map :
      (x : A) (xs : List A)
      → P x
      → All P xs
      → insert_by key (f x) (map f xs) ≡ map f (insert_by key x xs)
  insert_by-map x [] p h = refl
  insert_by-map x (y ∷ ys) p h = rw (agrees x y p h.0) (ground (arith, insert_by-map x ys p h.1))

  pub order_by-map : (xs : List A) → All P xs → order_by key (map f xs) ≡ map f (order_by key xs)
  order_by-map [] h = refl
  order_by-map (x ∷ xs) h =
      rw (order_by-map xs h.1) (insert_by-map x (order_by key xs) h.0 (All-order_by key P xs h.1))

module _ {ℓ} {A : Type ℓ} (key : A → ℕ) where
  abbrev pub Sorted : List A → Type 0
  Sorted [] = Unit
  Sorted (x ∷ xs) = All (λ y. key x ≤ key y) xs × Sorted xs

module _ {ℓ} {A : Type ℓ} (key : A → ℕ) where
  insert_by-Sorted : (x : A) (xs : List A) → Sorted key xs → Sorted key (insert_by key x xs)
  insert_by-Sorted x [] h = (tt, tt)
  insert_by-Sorted x (y ∷ ys) h = elim (Bool-cases (leb (key x) (key y))) [
    | inl e ↦ rw e ((leb→le _ _ e, All-mono _ _ (λ z k. le_trans (leb→le _ _ e) k) ys h.0), h)
    | inr e ↦
        rw e (
          All-insert_by key (λ z. key y ≤ key z) x ys (ground arith) h.0,
          insert_by-Sorted x ys h.1,
        )
  ]

  pub order_by-Sorted : (xs : List A) → Sorted key (order_by key xs)
  order_by-Sorted [] = tt
  order_by-Sorted (x ∷ xs) = insert_by-Sorted x (order_by key xs) (order_by-Sorted xs)

  insert_by_first :
      (x : A) (xs : List A) → All (λ y. key x ≤ key y) xs → insert_by key x xs ≡ x ∷ xs
  insert_by_first x [] h = refl
  insert_by_first x (y ∷ ys) h = rw (le→leb _ _ h.0)

  filterb-insert_by :
      (p : A → Bool) (x : A) (xs : List A)
      → Sorted key xs
      → filterb p (insert_by key x xs)
        ≡ (if p x then insert_by key x (filterb p xs) else filterb p xs)
  filterb-insert_by p x [] h = refl
  filterb-insert_by p x (y ∷ ys) h = elim (Bool-cases (leb (key x) (key y))) [
    | inl e ↦ rw e (
        ground (
          arith,
          insert_by_first x (filterb p (y ∷ ys)) (
              All-filterb _ p (y ∷ ys)
                (leb→le _ _ e, All-mono _ _ (λ z k. le_trans (leb→le _ _ e) k) ys h.0)),
        ))
    | inr e ↦ rw e (ground (arith, filterb-insert_by p x ys h.1))
  ]

  -- A filter and `ORDER BY` commute.
  pub filterb-order_by :
      (p : A → Bool) (xs : List A) → order_by key (filterb p xs) ≡ filterb p (order_by key xs)
  filterb-order_by p [] = refl
  filterb-order_by p (x ∷ xs) =
      ground
        (arith, filterb-order_by p xs, filterb-insert_by p x (order_by key xs) (order_by-Sorted xs))
