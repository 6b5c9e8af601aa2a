-- ===== src/VideoQueue/Shared/Private.antt =====
-- What the shared queue never shows (`listSharedPage` in
-- apps/web/src/server/video-queue/postgres.ts).
use streambrew.Base.{
  ℕ, ◌≤◌, ◌≡◌, refl, inl, inr, true, false, not, List, [], ◌∷◌, map, Text, Option, none, some,
  arith, length, filterb, filterb-true, drop, ◌==◌, and-true, ==→eq, Bool-cases, All, All-mono,
  All-take, All-drop, All-filterb, All-Memᴰ, Memᴰ,
}
use streambrew.VideoQueue.Queues.{Queue}
use streambrew.VideoQueue.Tables.{Video, User, Db, option_eq, owner, is_some}
use streambrew.VideoQueue.Pages.{get_pagination_window}
use streambrew.VideoQueue.Listing.{Row, rows_of, window_of, sort}
use streambrew.VideoQueue.Listing.Sorted.{All-sort}
use streambrew.VideoQueue.Shared.{
  SharedStatus, queue, watched, SharedVideo, SharedPage, shared_video, is_in, has_status,
  users_with, goes_first, count_shared, shared_rows, shared_page, list_shared_page, counted_status,
}
use streambrew.VideoQueue.Shared.Whole.{list_shared_page-eq-some}

-- What the user's settings let everyone see of a video.
pub record IsPublic (u : User) (v : SharedVideo) : Type 0 where
  pub amount :
      u.public_queue_show_amounts ≡ false → (v.display_amount ≡ none) × (v.display_currency ≡ none)
  pub watching : u.public_queue_show_watched ≡ false → v.watched_at ≡ none

-- What is shown is of a video in the table that stands in the queue and is the user's.
abbrev pub HasVideo : Db → User → ℕ → SharedVideo → Type 0
HasVideo db u queue_id s =
    (v : Video) × Memᴰ v db.videos
    × (s.video_id ≡ v.video_id)
    × (s.title ≡ v.title)
    × (s.url ≡ v.url)
    × (owner db.donations v ≡ some u.user_id)
    × (v.video_queue_id ≡ queue_id)

abbrev RowFits : Db → User → ℕ → SharedStatus → Row → Type 0
RowFits db u queue_id status r =
    (r.user ≡ u)
    × Memᴰ r.video db.videos
    × (owner db.donations r.video ≡ some u.user_id)
    × (is_in queue_id status r.video ≡ true)

option_eq_sound : (o : Option ℕ) (n : ℕ) → option_eq o (some n) ≡ true → o ≡ some n
option_eq_sound none n h = absurd (cc)
option_eq_sound (some m) n h = ground arith

rows_of-Fits :
    (db : Db) (u : User) (queue_id : ℕ) (status : SharedStatus) (vs : List Video)
    → All (λ v. is_in queue_id status v ≡ true) vs
    → All (λ v. Memᴰ v db.videos) vs
    → All (RowFits db u queue_id status) (rows_of db (u ∷ []) vs)
unfolding rows_of
rows_of-Fits db u queue_id status [] h m = tt
rows_of-Fits db u queue_id status (v ∷ vs) h m =
    let ih = rows_of-Fits db u queue_id status vs h.1 m.1 in
    elim (Bool-cases (option_eq (owner db.donations v) (some u.user_id))) [
      | inl e ↦ rw e ((refl, m.0, option_eq_sound (owner db.donations v) u.user_id e, h.0), ih)
      | inr e ↦ rw e ih
    ]

shown_status :
    (status : SharedStatus) (u : User)
    → u.public_queue_show_watched ≡ false
    → counted_status status u ≡ queue
shown_status queue u h = refl
shown_status watched u h = rw h refl

not_watched : (o : Option ℕ) → not (is_some o) ≡ true → o ≡ none
not_watched none h = refl
not_watched (some t) h = absurd (cc)

row-IsPublic :
    (db : Db) (u : User) (queue_id : ℕ) (status : SharedStatus) (r : Row)
    → RowFits db u queue_id (counted_status status u) r
    → IsPublic u (shared_video db.jobs r) × HasVideo db u queue_id (shared_video db.jobs r)
unfolding shared_video
row-IsPublic db u queue_id status r (same, member, owns, listed) =
    let (placed, has) =
      and-true (r.video.video_queue_id == queue_id) (has_status (counted_status status u) r.video)
        listed in
    (
      record {
        amount = λ hidden. rw (same, hidden) (refl, refl);
        watching =
            λ hidden. not_watched r.video.watched_at (rw (shown_status status u hidden) at has);
      },
      (r.video, member, refl, refl, refl, owns, ==→eq r.video.video_queue_id queue_id placed),
    )

All-map {ℓ κ μ} :
    {A : Type ℓ} {B : Type κ} (P : B → Type μ) (f : A → B) (xs : List A)
    → All (λ x. P (f x)) xs
    → All P (map f xs)
All-map P f [] h = tt
All-map P f (x ∷ xs) h = (h.0, All-map P f xs h.1)

page-IsPublic :
    (db : Db) (slug : Text) (page page_size : ℕ) (status : SharedStatus) (u : User) (q : Queue)
    → users_with slug db.users ≡ u ∷ []
    → All
        (λ v. IsPublic u v × HasVideo db u q.video_queue_id v)
        (shared_page db slug page page_size status u q).items
unfolding shared_page shared_rows
page-IsPublic db slug page page_size status u q only =
    let id : ℕ = q.video_queue_id in
    let shown : SharedStatus = counted_status status u in
    let vs = filterb (is_in id shown) db.videos in
    let rows = sort (goes_first shown) (rows_of db (u ∷ []) vs) in
    let offset : ℕ = (get_pagination_window (count_shared db u id shown) page page_size).offset in
    let fit : All (RowFits db u id shown) rows =
      All-sort (goes_first shown) (RowFits db u id shown) (rows_of db (u ∷ []) vs) (
        rows_of-Fits db u id shown vs (filterb-true (is_in id shown) db.videos)
          (All-filterb (λ v. Memᴰ v db.videos) (is_in id shown) db.videos (All-Memᴰ db.videos))) in
    rw only (
      All-map (λ v. IsPublic u v × HasVideo db u id v) (shared_video db.jobs)
        (window_of offset page_size rows)
        (All-mono (RowFits db u id shown)
          (λ r. IsPublic u (shared_video db.jobs r) × HasVideo db u id (shared_video db.jobs r))
          (row-IsPublic db u id status) (window_of offset page_size rows)
          (All-take (RowFits db u id shown) page_size (drop offset rows)
            (All-drop (RowFits db u id shown) offset rows fit))))

-- Where no two users have the slug, a page is given only where its streamer has made the queue public,
-- and each of its items is a video of the table, with its title and address, that is the streamer's
-- and stands in the queue of the page. An item shows no amount and no currency where the streamer
-- hides amounts, and none is a watched video where these are hidden.
pub list_shared_page-IsPublic :
    (db : Db) (slug : Text) (page page_size : ℕ) (status : SharedStatus) (queue_id : Option ℕ)
    (r : SharedPage)
    → length (users_with slug db.users) ≤ 1
    → list_shared_page db slug page page_size status queue_id ≡ some r
    → (u : User) × (users_with slug db.users ≡ u ∷ [])
      × (u.public_queue_enabled ≡ true)
      × All (λ v. IsPublic u v × HasVideo db u r.video_queue_id v) r.items
unfolding shared_page
list_shared_page-IsPublic db slug page page_size status queue_id r one h =
    let (u, q, only, e, enabled, same) =
      list_shared_page-eq-some db slug page page_size status queue_id r one h in
    (u, only, enabled, rw same (page-IsPublic db slug page page_size status u q only))
