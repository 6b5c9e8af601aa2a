-- ===== src/VideoQueue/Listing.antt =====
-- How the pages of videos are read (apps/web/src/server/video-queue/postgres.ts): the joins, the order
-- and the window that listPage and listSharedPage share.
pub mod Sorted
use streambrew.Base.{
  ℕ, suc, Bool, true, false, ◌&&◌, List, [], ◌∷◌, ◌++◌, Option, none, some, ltb, ◌==◌,
  if◌then◌else◌, filterb, head?, take, drop,
}
use streambrew.VideoQueue.Tables.{Video, Donation, Priority, User, Db, option_eq, owner, is_some}

-- A video with what it is joined to.
pub record Row : Type 0 where
  pub video : Video
  pub donation : Option Donation
  pub priority : Option Priority
  pub user : User

-- LEFT JOIN donation USING (donation_id)
abbrev pub donation_of : List Donation → Option ℕ → Option Donation
donation_of ds id = head? (filterb (λ d. option_eq id (some d.donation_id)) ds)

-- LEFT JOIN video_priority USING (video_priority_id)
abbrev pub priority_of : List Priority → Option ℕ → Option Priority
priority_of ps id = head? (filterb (λ p. option_eq id (some p.video_priority_id)) ps)

-- ON "user".user_id = coalesce(video.user_id, donation.user_id), among the users that are asked for.
abbrev pub user_of : Db → List User → Video → Option User
user_of db users v = head? (filterb (λ u. option_eq (owner db.donations v) (some u.user_id)) users)

abbrev pub row_with : Db → Video → User → Row
row_with db v u = record {
  video = v;
  donation = donation_of db.donations v.donation_id;
  priority = priority_of db.priorities v.video_priority_id;
  user = u;
}

abbrev pub add_row : Db → Video → Option User → List Row → List Row
add_row db v none rs = rs
add_row db v (some u) rs = row_with db v u ∷ rs

unfoldable pub rows_of : Db → List User → List Video → List Row
rows_of db users [] = []
rows_of db users (v ∷ vs) = add_row db v (user_of db users v) (rows_of db users vs)

-- coalesce(donation.occurred_at, video.added_at)
abbrev pub created_at : Row → Option ℕ
created_at r = elim r.donation [ some d ↦ some d.occurred_at | none ↦ r.video.added_at ]

-- The keys of ORDER BY … DESC, NULLS FIRST as is the default, or NULLS LAST.
abbrev pub nulls_first : Option ℕ → List ℕ
nulls_first none = 1 ∷ 0 ∷ []
nulls_first (some t) = 0 ∷ t ∷ []

abbrev pub nulls_last : Option ℕ → List ℕ
nulls_last none = 0 ∷ []
nulls_last (some t) = suc t ∷ []

-- Keys that are compared one after the other, the larger first.
abbrev pub is_before : List ℕ → List ℕ → Bool
is_before [] ys = true
is_before (x ∷ xs) [] = true
is_before (x ∷ xs) (y ∷ ys) =
    let next = is_before xs ys in if ltb y x then true else if x == y then next else false

abbrev pub insert {ℓ} : {A : Type ℓ} → (A → A → Bool) → A → List A → List A
insert before x [] = x ∷ []
insert before x (y ∷ ys) = if before x y then x ∷ y ∷ ys else y ∷ insert before x ys

abbrev pub sort {ℓ} : {A : Type ℓ} → (A → A → Bool) → List A → List A
sort before [] = []
sort before (x ∷ xs) = insert before x (sort before xs)

-- LIMIT page_size OFFSET offset
abbrev pub window_of {ℓ} : {A : Type ℓ} → ℕ → ℕ → List A → List A
window_of offset page_size xs = take page_size (drop offset xs)
