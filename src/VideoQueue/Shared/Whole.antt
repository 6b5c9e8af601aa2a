-- ===== src/VideoQueue/Shared/Whole.antt =====
-- The pages of the shared queue together (`listSharedPage` in
-- apps/web/src/server/video-queue/postgres.ts).
use streambrew.Base.{
  ℕ, suc, ◌*◌, ◌≤◌, ◌≡◌, ◌∙◌, refl, sym, ap, inl, inr, Bool, true, ◌&&◌, List, [], ◌∷◌, ◌++◌, map,
  Text, Option, none, some, arith, length, length-map, filterb, head?, Bool-cases, Option-cases,
}
use streambrew.VideoQueue.Queues.{Queue}
use streambrew.VideoQueue.Tables.{Video, User, Db, option_eq, owner}
use streambrew.VideoQueue.Pages.{total_pages_of, get_pagination_window}
use streambrew.VideoQueue.Listing.{Row, rows_of, window_of}
use streambrew.VideoQueue.Listing.Sorted.{
  is_before_total, InOrder, sort-InOrder, length-sort, up_to, take_all, up_to-window_of,
  map-window_of,
}
use streambrew.VideoQueue.Shared.{
  SharedStatus, SharedVideo, SharedPage, shared_video, is_in, count_shared, users_with, summaries,
  goes_first, order_keys, shared_rows, shared_page, list_shared_page, counted_status, is_asked,
}

pub filterb-filterb {ℓ} :
    {A : Type ℓ} (p q : A → Bool) (xs : List A)
    → filterb p (filterb q xs) ≡ filterb (λ x. p x && q x) xs
filterb-filterb p q [] = refl
filterb-filterb p q (x ∷ xs) = ground (arith, filterb-filterb p q xs)

pub length-rows_of :
    (db : Db) (u : User) (vs : List Video)
    → length (rows_of db (u ∷ []) vs)
      ≡ length (filterb (λ v. option_eq (owner db.donations v) (some u.user_id)) vs)
unfolding rows_of
length-rows_of db u [] = refl
length-rows_of db u (v ∷ vs) =
    let ih = length-rows_of db u vs in
    elim (Bool-cases (option_eq (owner db.donations v) (some u.user_id))) [
      | inl e ↦ rw (e, ih) refl
      | inr e ↦ rw (e, ih) refl
    ]

-- The user whose slug is asked for is the only one with it.
pub summaries-head :
    (us : List User) (queue_id : Option ℕ) (qs : List Queue) (u : User) (q : Queue)
    → length us ≤ 1
    → head? (summaries us queue_id qs) ≡ some (u, q)
    → us ≡ u ∷ []
summaries-head [] queue_id qs u q one h = absurd (cc)
summaries-head (w ∷ x ∷ us) queue_id qs u q one h = absurd (omega (arith, one))
summaries-head (w ∷ []) queue_id qs u q one h = onto (filterb (is_asked w queue_id) qs) h
  where
    onto :
        (asked : List Queue)
        → head? {A = User × Queue} (map (λ q. (w, q)) asked ++ []) ≡ some (u, q)
        → w ∷ [] ≡ u ∷ []
    onto [] h = absurd (cc)
    onto (p ∷ ps) h = ap (λ w. w ∷ []) (cc h)

-- What a page that is given is made of.
pub list_shared_page-eq-some :
    (db : Db) (slug : Text) (page size : ℕ) (status : SharedStatus) (queue_id : Option ℕ)
    (r : SharedPage)
    → length (users_with slug db.users) ≤ 1
    → list_shared_page db slug page size status queue_id ≡ some r
    → (u : User) × (q : Queue) × (users_with slug db.users ≡ u ∷ [])
      × (head? (summaries (users_with slug db.users) queue_id db.queues) ≡ some (u, q))
      × (u.public_queue_enabled ≡ true)
      × (r ≡ shared_page db slug page size status u q)
unfolding list_shared_page
list_shared_page-eq-some db slug page size status queue_id r one h =
    elim (Option-cases (head? (summaries (users_with slug db.users) queue_id db.queues))) [
      | inl missing ↦ absurd (cc (rw (missing, list_shared_page) at h))
      | inr ((u, q), e) ↦ elim (Bool-cases u.public_queue_enabled) [
        | inl enabled ↦ (
          u,
          q,
          summaries-head (users_with slug db.users) queue_id db.queues u q one e,
          e,
          enabled,
          cc (rw (e, list_shared_page, enabled) at h),
        )
        | inr hidden ↦ absurd (cc (rw (e, list_shared_page, hidden) at h))
      ]
    ]

length-shared_rows :
    (db : Db) (slug : Text) (queue_id : ℕ) (status : SharedStatus) (u : User)
    → users_with slug db.users ≡ u ∷ []
    → length (shared_rows db slug queue_id status) ≡ count_shared db u queue_id status
unfolding shared_rows count_shared
length-shared_rows db slug queue_id status u e = rw e (
    length-sort (goes_first status)
      (rows_of db (u ∷ []) (filterb (is_in queue_id status) db.videos))
    ∙ length-rows_of db u (filterb (is_in queue_id status) db.videos)
    ∙ ap length (
        filterb-filterb (λ v. option_eq (owner db.donations v) (some u.user_id))
          (is_in queue_id status) db.videos))

-- The videos that a page shows, none where there is no page.
abbrev pub items_of : Option SharedPage → List SharedVideo
items_of none = []
items_of (some r) = r.items

pub window-offset :
    (total k : ℕ)
    → suc k ≤ total_pages_of total 25
    → (get_pagination_window total (suc k) 25).offset ≡ k * 25
unfolding get_pagination_window total_pages_of
window-offset total k h = omega (arith, h)

enabled-page :
    (db : Db) (slug : Text) (page : ℕ) (status : SharedStatus) (queue_id : Option ℕ) (u : User)
    (q : Queue)
    → head? (summaries (users_with slug db.users) queue_id db.queues) ≡ some (u, q)
    → u.public_queue_enabled ≡ true
    → list_shared_page db slug page 25 status queue_id
      ≡ some (shared_page db slug page 25 status u q)
unfolding list_shared_page
enabled-page db slug page status queue_id u q e enabled = rw (e, list_shared_page, enabled) refl

page-window_of :
    (db : Db) (slug : Text) (page k : ℕ) (status : SharedStatus) (u : User) (q : Queue)
    → suc k ≤ (shared_page db slug page 25 status u q).total_pages
    → (shared_page db slug (suc k) 25 status u q).items
      ≡ window_of (k * 25) 25 (
          map
            (shared_video db.jobs)
            (shared_rows db slug q.video_queue_id (counted_status status u)))
unfolding shared_page get_pagination_window
page-window_of db slug page k status u q l =
    let total : ℕ = count_shared db u q.video_queue_id (counted_status status u) in
    let rows = shared_rows db slug q.video_queue_id (counted_status status u) in
    ap (λ offset. map (shared_video db.jobs) (window_of offset 25 rows)) (window-offset total k l)
    ∙ map-window_of (shared_video db.jobs) (k * 25) 25 rows

rows-InOrder :
    (db : Db) (slug : Text) (queue_id : ℕ) (status : SharedStatus)
    → InOrder (goes_first status) (shared_rows db slug queue_id status)
unfolding shared_rows
rows-InOrder db slug queue_id status =
    sort-InOrder (goes_first status)
      (λ r s. is_before_total (order_keys status r) (order_keys status s))
      (rows_of db (users_with slug db.users) (filterb (is_in queue_id status) db.videos))

-- The videos that have the status of a page and whose owner has its slug, in their order.
pub record Whole (db : Db) (slug : Text) (r : SharedPage) (items : List SharedVideo) : Type 0 where
  pub rows : List Row
  pub asked : rows ≡ shared_rows db slug r.video_queue_id r.status
  pub shown : items ≡ map (shared_video db.jobs) rows
  pub counted : r.total ≡ length rows
  pub in_order : InOrder (goes_first r.status) rows

pages-Whole :
    (db : Db) (slug : Text) (page : ℕ) (status : SharedStatus) (queue_id : Option ℕ) (u : User)
    (q : Queue)
    → users_with slug db.users ≡ u ∷ []
    → head? (summaries (users_with slug db.users) queue_id db.queues) ≡ some (u, q)
    → u.public_queue_enabled ≡ true
    → let r = shared_page db slug page 25 status u q in
      Whole db slug r
        (up_to (λ k. items_of (list_shared_page db slug k 25 status queue_id)) r.total_pages)
unfolding shared_page get_pagination_window total_pages_of
pages-Whole db slug page status queue_id u q only e enabled =
    let rows = shared_rows db slug q.video_queue_id (counted_status status u) in
    let total : ℕ = count_shared db u q.video_queue_id (counted_status status u) in
    let counted = length-shared_rows db slug q.video_queue_id (counted_status status u) u only in
    let items = map (shared_video db.jobs) rows in
    let n : ℕ = total_pages_of total 25 in
    record {
      rows = rows;
      asked = refl;
      shown =
          up_to-window_of 25 items (λ k. items_of (list_shared_page db slug k 25 status queue_id)) n
            (λ k l.
              ap items_of (enabled-page db slug (suc k) status queue_id u q e enabled)
              ∙ page-window_of db slug page k status u q l)
          ∙ take_all (n * 25) items
              (ground (arith, length-map (shared_video db.jobs) rows, counted));
      counted = sym counted;
      in_order = rows-InOrder db slug q.video_queue_id (counted_status status u);
    }

-- Where no two users have the slug: the pages from the first to the last, each asked for by itself,
-- give together every video of the queue that has the page's status and the streamer as its owner,
-- once and in order, and their number is the total that every page tells.
pub list_shared_page-Whole :
    (db : Db) (slug : Text) (page : ℕ) (status : SharedStatus) (queue_id : Option ℕ)
    (r : SharedPage)
    → length (users_with slug db.users) ≤ 1
    → list_shared_page db slug page 25 status queue_id ≡ some r
    → Whole db slug r
        (up_to (λ k. items_of (list_shared_page db slug k 25 status queue_id)) r.total_pages)
list_shared_page-Whole db slug page status queue_id r one h =
    let (u, q, only, e, enabled, same) =
      list_shared_page-eq-some db slug page 25 status queue_id r one h in
    rw same (pages-Whole db slug page status queue_id u q only e enabled)
