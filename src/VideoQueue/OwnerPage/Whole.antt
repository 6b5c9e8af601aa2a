-- ===== src/VideoQueue/OwnerPage/Whole.antt =====
-- The pages of a queue together (`listPage` in apps/web/src/server/video-queue/postgres.ts).
use streambrew.Base.{
  ℕ, suc, ◌+◌, ◌*◌, ◌≤◌, ◌≡◌, ◌∙◌, refl, sym, ap, inl, inr, Bool, true, not, ◌&&◌, List, [], ◌∷◌,
  map, Option, none, some, arith, length, length-map, filterb, ◌==◌, Option-cases,
}
use streambrew.VideoQueue.Queues.{Queue}
use streambrew.VideoQueue.Tables.{Video, User, Db, is_some}
use streambrew.VideoQueue.Pages.{total_pages_of, get_pagination_window}
use streambrew.VideoQueue.Listing.{Row, rows_of, window_of}
use streambrew.VideoQueue.Listing.Sorted.{
  is_before_total, InOrder, sort-InOrder, length-sort, up_to, take_all, up_to-window_of,
  map-window_of,
}
use streambrew.VideoQueue.Shared.Whole.{window-offset, length-rows_of, filterb-filterb}
use streambrew.VideoQueue.OwnerPage.{
  PageInput, page_queue, is_owned, is_wanted, count_wanted, status_counts, OwnerVideo, owner_video,
  order_keys, goes_first, wanted_rows, OwnerPage, owner_page, list_page,
}

abbrev pub at_page : PageInput → ℕ → PageInput
at_page input k = record input { page = k; page_size = 25 }

abbrev pub items_of : Option OwnerPage → List OwnerVideo
items_of none = []
items_of (some r) = r.items

-- The videos that the input asks for in the queue of the page, in their order.
pub record Whole (db : Db) (u : ℕ) (input : PageInput) (r : OwnerPage) (items : List OwnerVideo)
    : Type 0 where
  pub rows : List Row
  pub asked : rows ≡ wanted_rows db u input r.queue.video_queue_id
  pub shown : items ≡ map (owner_video db.jobs) rows
  pub counted : r.total ≡ length rows
  pub in_order : InOrder (goes_first input.status) rows
  pub sums : r.status_counts.all ≡ r.status_counts.notwatched + r.status_counts.watched

either_status :
    (p : Video → Bool) (vs : List Video)
    → length (filterb (λ v. p v && true) vs)
      ≡ length (filterb (λ v. p v && not (is_some v.watched_at)) vs)
        + length (filterb (λ v. p v && is_some v.watched_at) vs)
either_status p [] = omega arith
either_status p (v ∷ vs) = ground (arith, either_status p vs)

counts-sum :
    (db : Db) (u queue_id : ℕ)
    → (status_counts db u queue_id).all
      ≡ (status_counts db u queue_id).notwatched + (status_counts db u queue_id).watched
unfolding status_counts
counts-sum db u queue_id =
    either_status (λ v. is_owned db u v && v.video_queue_id == queue_id) db.videos

length-wanted_rows :
    (db : Db) (u : ℕ) (input : PageInput) (queue_id : ℕ) (w : User)
    → filterb (λ w. w.user_id == u) db.users ≡ w ∷ []
    → w.user_id ≡ u
    → length (wanted_rows db u input queue_id) ≡ count_wanted db u input queue_id
unfolding wanted_rows count_wanted
length-wanted_rows db u input queue_id w e same = rw e (
    length-sort (goes_first input.status)
      (rows_of db (w ∷ []) (filterb (is_wanted input queue_id) db.videos))
    ∙ length-rows_of db w (filterb (is_wanted input queue_id) db.videos)
    ∙ rw same (ap length (filterb-filterb (is_owned db u) (is_wanted input queue_id) db.videos)))

wanted_rows-InOrder :
    (db : Db) (u : ℕ) (input : PageInput) (queue_id : ℕ)
    → InOrder (goes_first input.status) (wanted_rows db u input queue_id)
unfolding wanted_rows
wanted_rows-InOrder db u input queue_id =
    sort-InOrder (goes_first input.status)
      (λ r s. is_before_total (order_keys input.status r) (order_keys input.status s))
      (rows_of db (filterb (λ w. w.user_id == u) db.users)
        (filterb (is_wanted input queue_id) db.videos))

page-window_of :
    (db : Db) (u : ℕ) (input : PageInput) (k : ℕ) (q : Queue)
    → suc k ≤ total_pages_of (count_wanted db u input q.video_queue_id) 25
    → (owner_page db u (at_page input (suc k)) q).items
      ≡ window_of (k * 25) 25 (map (owner_video db.jobs) (wanted_rows db u input q.video_queue_id))
unfolding owner_page get_pagination_window count_wanted wanted_rows
page-window_of db u input k q l =
    let total : ℕ = count_wanted db u input q.video_queue_id in
    let rows = wanted_rows db u input q.video_queue_id in
    ap (λ offset. map (owner_video db.jobs) (window_of offset 25 rows)) (window-offset total k l)
    ∙ map-window_of (owner_video db.jobs) (k * 25) 25 rows

-- The queue does not depend on the page.
found-page :
    (db : Db) (u : ℕ) (input : PageInput) (k : ℕ) (q : Queue)
    → page_queue db u input ≡ some q
    → list_page db u (at_page input k) ≡ some (owner_page db u (at_page input k) q)
unfolding list_page page_queue
found-page db u input k q e = rw (e, list_page, page_queue) refl

list_page-eq-some :
    (db : Db) (u : ℕ) (input : PageInput) (r : OwnerPage)
    → list_page db u input ≡ some r
    → (q : Queue) × (page_queue db u input ≡ some q) × (r ≡ owner_page db u input q)
unfolding list_page
list_page-eq-some db u input r h = elim (Option-cases (page_queue db u input)) [
  | inl missing ↦ absurd (cc (rw (missing, list_page) at h))
  | inr (q, e) ↦ (q, e, cc (rw (e, list_page) at h))
]

pages-Whole :
    (db : Db) (u : ℕ) (input : PageInput) (q : Queue) (w : User)
    → filterb (λ w. w.user_id == u) db.users ≡ w ∷ []
    → w.user_id ≡ u
    → input.page_size ≡ 25
    → page_queue db u input ≡ some q
    → let r = owner_page db u input q in
      Whole db u input r (up_to (λ k. items_of (list_page db u (at_page input k))) r.total_pages)
unfolding owner_page get_pagination_window total_pages_of count_wanted wanted_rows
pages-Whole db u input q w only same size e =
    let id : ℕ = q.video_queue_id in
    let rows = wanted_rows db u input id in
    let counted = length-wanted_rows db u input id w only same in
    let items = map (owner_video db.jobs) rows in
    let n : ℕ = total_pages_of (count_wanted db u input id) 25 in
    let whole =
      up_to-window_of 25 items (λ k. items_of (list_page db u (at_page input k))) n
        (λ k l. ap items_of (found-page db u input (suc k) q e) ∙ page-window_of db u input k q l)
      ∙ take_all (n * 25) items (ground (arith, length-map (owner_video db.jobs) rows, counted)) in
    record {
      rows = rows;
      asked = refl;
      shown = rw size whole;
      counted = sym counted;
      in_order = wanted_rows-InOrder db u input id;
      sums = counts-sum db u id;
    }

-- Where there is one row of the user and the page size is 25: the pages from the first to the last,
-- each asked for by itself, give together the whole listing, in order, and its length is the total
-- that the page tells. Of the counts by status, that of all is the sum of those watched and not.
pub list_page-Whole :
    (db : Db) (u : ℕ) (input : PageInput) (r : OwnerPage) (w : User)
    → filterb (λ w. w.user_id == u) db.users ≡ w ∷ []
    → w.user_id ≡ u
    → input.page_size ≡ 25
    → list_page db u input ≡ some r
    → Whole db u input r (up_to (λ k. items_of (list_page db u (at_page input k))) r.total_pages)
list_page-Whole db u input r w only is size h =
    let (q, e, same) = list_page-eq-some db u input r h in
    rw same (pages-Whole db u input q w only is size e)
