-- ===== src/VideoQueue/Listing/Sorted.antt =====
-- The order of a listing, and its pages (apps/web/src/server/video-queue/postgres.ts).
use streambrew.Base.{
  ℕ, zero, suc, ◌+◌, ◌*◌, ◌≤◌, ◌≡◌, ◌∙◌, refl, ap, inl, inr, Bool, true, false, List, [], ◌∷◌, ◌++◌,
  map, arith, length, take, drop, Bool-cases, All,
}
use streambrew.VideoQueue.Listing.{is_before, insert, sort, window_of}

-- Of two lists of keys one is before the other.
pub is_before_total : (xs ys : List ℕ) → is_before xs ys ≡ false → is_before ys xs ≡ true
is_before_total [] ys h = absurd (cc)
is_before_total (x ∷ xs) [] h = refl
is_before_total (x ∷ xs) (y ∷ ys) h = ground (arith, is_before_total xs ys)

module _ {ℓ} {A : Type ℓ} (before : A → A → Bool) where
  -- Each row stands before the next one.
  abbrev pub InOrder : List A → Type 0
  InOrder [] = Unit
  InOrder (x ∷ []) = Unit
  InOrder (x ∷ y ∷ ys) = (before x y ≡ true) × InOrder (y ∷ ys)

module _ {ℓ} {A : Type ℓ} (before : A → A → Bool)
    (total : (x y : A) → before x y ≡ false → before y x ≡ true) where
  insert-InOrder : (x : A) (xs : List A) → InOrder before xs → InOrder before (insert before x xs)
  insert-InOrder x [] h = tt
  insert-InOrder x (y ∷ []) h = elim (Bool-cases (before x y)) [
    | inl e ↦ rw e (e, tt)
    | inr e ↦ rw e (total x y e, tt)
  ]
  insert-InOrder x (y ∷ z ∷ zs) h =
      let ih = insert-InOrder x (z ∷ zs) h.1 in
      elim (Bool-cases (before x y)) [
        | inl e ↦ rw e (e, h)
        | inr e ↦ elim (Bool-cases (before x z)) [
          | inl d ↦ rw (e, d) (total x y e, rw d at ih)
          | inr d ↦ rw (e, d) (h.0, rw d at ih)
        ]
      ]

  pub sort-InOrder : (xs : List A) → InOrder before (sort before xs)
  sort-InOrder [] = tt
  sort-InOrder (x ∷ xs) = insert-InOrder x (sort before xs) (sort-InOrder xs)

module _ {ℓ} {A : Type ℓ} (before : A → A → Bool) where
  length-insert : (x : A) (xs : List A) → length (insert before x xs) ≡ suc (length xs)
  length-insert x [] = refl
  length-insert x (y ∷ ys) = ground (arith, length-insert x ys)

  pub length-sort : (xs : List A) → length (sort before xs) ≡ length xs
  length-sort [] = refl
  length-sort (x ∷ xs) = ground (arith, length-sort xs, length-insert x (sort before xs))

module _ {ℓ κ} {A : Type ℓ} (before : A → A → Bool) (P : A → Type κ) where
  All-insert : (x : A) (xs : List A) → P x → All P xs → All P (insert before x xs)
  All-insert x [] p h = (p, tt)
  All-insert x (y ∷ ys) p h = ground (arith, All-insert x ys p h.1, h.0)

  pub All-sort : (xs : List A) → All P xs → All P (sort before xs)
  All-sort [] h = tt
  All-sort (x ∷ xs) h = All-insert x (sort before xs) h.0 (All-sort xs h.1)

module _ {ℓ} {A : Type ℓ} where
  -- What the pages from the first to the last give together.
  abbrev pub up_to : (ℕ → List A) → ℕ → List A
  up_to page zero = []
  up_to page (suc n) = up_to page n ++ page (suc n)

  take-nil : (n : ℕ) → take {A = A} n [] ≡ []
  take-nil zero = refl
  take-nil (suc n) = refl

  take-add : (m n : ℕ) (xs : List A) → take (m + n) xs ≡ take m xs ++ take n (drop m xs)
  take-add zero n xs = let e : 0 + n ≡ n = omega arith in rw e refl
  take-add (suc m) n [] = rw (take-nil (suc m + n), take-nil n) refl
  take-add (suc m) n (x ∷ xs) =
      let e : suc m + n ≡ suc (m + n) = omega arith in rw (e, take-add m n xs) refl

  pub take_all : (n : ℕ) (xs : List A) → length xs ≤ n → take n xs ≡ xs
  take_all zero [] h = refl
  take_all (suc n) [] h = refl
  take_all zero (x ∷ xs) h = absurd (omega (arith, h))
  take_all (suc n) (x ∷ xs) h = ap (λ ys. x ∷ ys) (take_all n xs (omega (arith, h)))

  pub up_to-window_of :
      (size : ℕ) (xs : List A) (page : ℕ → List A) (n : ℕ)
      → ((k : ℕ) → suc k ≤ n → page (suc k) ≡ window_of (k * size) size xs)
      → up_to page n ≡ take (n * size) xs
  up_to-window_of size xs page zero h = let e : 0 * size ≡ 0 = omega arith in rw e refl
  up_to-window_of size xs page (suc n) h =
      let e : suc n * size ≡ n * size + size = omega arith in
      rw
        (
          e,
          take-add (n * size) size xs,
          up_to-window_of size xs page n (λ k l. h k (omega (arith, l))),
          h n (omega arith),
        )
        refl

module _ {ℓ κ} {A : Type ℓ} {B : Type κ} (f : A → B) where
  map-take : (n : ℕ) (xs : List A) → map f (take n xs) ≡ take n (map f xs)
  map-take zero xs = refl
  map-take (suc n) [] = refl
  map-take (suc n) (x ∷ xs) = ap (λ ys. f x ∷ ys) (map-take n xs)

  map-drop : (n : ℕ) (xs : List A) → map f (drop n xs) ≡ drop n (map f xs)
  map-drop zero xs = refl
  map-drop (suc n) [] = refl
  map-drop (suc n) (x ∷ xs) = map-drop n xs

  pub map-window_of :
      (offset size : ℕ) (xs : List A)
      → map f (window_of offset size xs) ≡ window_of offset size (map f xs)
  map-window_of offset size xs =
      map-take size (drop offset xs) ∙ ap (take size) (map-drop offset xs)
