-- ===== src/VideoQueue/Shared.antt =====
-- The page of a streamer's queue that everyone may see (`listSharedPage` in
-- apps/web/src/server/video-queue/postgres.ts).
pub mod Private
pub mod Whole
pub mod Tests
use streambrew.Base.{
  ℕ, ◌+◌, ◌-◌, Bool, true, false, not, ◌&&◌, ◌||◌, List, [], ◌∷◌, ◌++◌, map, Text, text_eq, Option,
  none, some, ◌==◌, if◌then◌else◌, filterb, head?, length, anyb,
}
use streambrew.VideoQueue.Queues.{Queue, list_queues}
use streambrew.VideoQueue.Tables.{
  Video, Donation, Priority, QueueCurrency, User, MetadataJob, Db, option_eq, owner, is_some,
  precedes,
}
use streambrew.VideoQueue.Pages.{Window, get_pagination_window}
use streambrew.VideoQueue.Listing.{
  Row, rows_of, created_at, nulls_first, nulls_last, is_before, sort, window_of,
}

pub data SharedStatus : Type 0 where
  queue watched : SharedStatus

-- What is paid for a video: the amount in the queue's currency, or the donation's own.
pub data Amount : Type 0 where
  queued : ℕ → Amount
  donated : Text → Amount

pub data Currency : Type 0 where
  queue_currency : QueueCurrency → Currency
  asset : Text → Currency

pub record SharedVideo : Type 0 where
  pub video_id : ℕ
  pub title : Option Text
  pub video_priority_id : Option ℕ
  pub url : Text
  pub start_seconds : ℕ
  pub end_seconds : Option ℕ
  pub duration_seconds : Option ℕ
  pub metadata_unavailable : Bool
  pub watched_at : Option ℕ
  pub priority_label : Option Text
  pub display_amount : Option Amount
  pub display_currency : Option Currency
  pub shown_at : Option ℕ

pub record SharedPriority : Type 0 where
  pub video_priority_id : ℕ
  pub label : Text
  pub video_count : ℕ
  pub remaining_seconds : ℕ

pub record SharedPage : Type 0 where
  pub items : List SharedVideo
  pub video_queue_id : ℕ
  pub queues : List Queue
  pub page : ℕ
  pub page_size : ℕ
  pub priorities : List SharedPriority
  pub show_watched_videos : Bool
  pub status : SharedStatus
  pub total : ℕ
  pub total_pages : ℕ

-- completed_at IS NOT NULL AND last_error_code IS NOT NULL
abbrev pub is_unavailable : List MetadataJob → ℕ → Bool
is_unavailable jobs id =
    anyb
      (λ j.
        j.video_id == id
        && (is_some j.completed_at && elim j.last_error_code [ some _ ↦ true | none ↦ false ]))
      jobs

-- coalesce(video.queue_amount, donation.amount, 0)
abbrev pub amount_of : Option ℕ → Option Donation → Amount
amount_of (some n) donation = queued n
amount_of none (some d) = donated d.amount
amount_of none none = queued 0

abbrev pub currency_of : Option ℕ → Option Donation → QueueCurrency → Currency
currency_of none (some d) currency = asset d.currency
currency_of none none currency = queue_currency currency
currency_of (some n) donation currency = queue_currency currency

unfoldable pub shared_video : List MetadataJob → Row → SharedVideo
shared_video jobs r = record {
  video_id = r.video.video_id;
  title = r.video.title;
  video_priority_id = r.video.video_priority_id;
  url = r.video.url;
  start_seconds = r.video.start_seconds;
  end_seconds = r.video.end_seconds;
  duration_seconds = r.video.duration_seconds;
  metadata_unavailable = is_unavailable jobs r.video.video_id;
  watched_at = r.video.watched_at;
  priority_label = elim r.priority [ some p ↦ some p.label | none ↦ none ];
  display_amount =
      if r.user.public_queue_show_amounts
      then some (amount_of r.video.queue_amount r.donation)
      else none;
  display_currency =
      if r.user.public_queue_show_amounts
      then some (currency_of r.video.queue_amount r.donation r.user.queue_currency)
      else none;
  shown_at = created_at r;
}

-- CASE WHEN status = 'watched' THEN watched_at IS NOT NULL ELSE watched_at IS NULL END
abbrev pub has_status : SharedStatus → Video → Bool
has_status watched v = is_some v.watched_at
has_status queue v = not (is_some v.watched_at)

-- The status of the count: 'watched' where the user shows what is watched.
abbrev pub counted_status : SharedStatus → User → SharedStatus
counted_status queue u = queue
counted_status watched u = if u.public_queue_show_watched then watched else queue

abbrev pub is_in : ℕ → SharedStatus → Video → Bool
is_in queue_id status v = v.video_queue_id == queue_id && has_status status v

unfoldable pub count_shared : Db → User → ℕ → SharedStatus → ℕ
count_shared db u queue_id status = length (
    filterb (λ v. option_eq (owner db.donations v) (some u.user_id) && is_in queue_id status v)
      db.videos)

abbrev pub is_asked : User → Option ℕ → Queue → Bool
is_asked u none q = q.user_id == u.user_id && q.is_default
is_asked u (some id) q = q.user_id == u.user_id && q.video_queue_id == id

-- FROM "user" JOIN video_queue … WHERE slug = …
abbrev pub users_with : Text → List User → List User
users_with slug users = filterb (λ u. text_eq u.slug slug) users

abbrev pub summaries : List User → Option ℕ → List Queue → List (User × Queue)
summaries [] queue_id qs = []
summaries (u ∷ us) queue_id qs =
    map (λ q. (u, q)) (filterb (is_asked u queue_id) qs) ++ summaries us queue_id qs

abbrev pub order_keys : SharedStatus → Row → List ℕ
order_keys watched r = nulls_first r.video.watched_at ++ r.video.video_id ∷ []
order_keys queue r =
    nulls_last (elim r.priority [ some p ↦ some p.min_price_per_minute | none ↦ none ])
    ++ (nulls_first (created_at r) ++ r.video.video_id ∷ [])

abbrev pub goes_first : SharedStatus → Row → Row → Bool
goes_first status r s = is_before (order_keys status r) (order_keys status s)

-- The rows of the query before LIMIT and OFFSET.
unfoldable pub shared_rows : Db → Text → ℕ → SharedStatus → List Row
shared_rows db slug queue_id status =
    sort (goes_first status)
      (rows_of db (users_with slug db.users) (filterb (is_in queue_id status) db.videos))

-- video_check1 keeps an end after its start.
abbrev pub seconds_of : List Video → ℕ
seconds_of [] = 0
seconds_of (v ∷ vs) = elim v.end_seconds [ some e ↦ e - v.start_seconds | none ↦ 0 ] + seconds_of vs

abbrev pub is_waiting_in : ℕ → ℕ → Video → Bool
is_waiting_in queue_id priority_id v =
    option_eq v.video_priority_id (some priority_id) && is_in queue_id queue v

abbrev pub shared_priority : List Video → ℕ → Priority → SharedPriority
shared_priority vs queue_id p =
    let waiting = filterb (is_waiting_in queue_id p.video_priority_id) vs in
    record {
      video_priority_id = p.video_priority_id;
      label = p.label;
      video_count = length waiting;
      remaining_seconds = seconds_of waiting;
    }

unfoldable pub shared_priorities : Db → ℕ → ℕ → SharedStatus → List SharedPriority
shared_priorities db u queue_id watched = []
shared_priorities db u queue_id queue =
    map (shared_priority db.videos queue_id)
      (sort precedes (filterb (λ p. p.user_id == u) db.priorities))

unfoldable pub shared_page : Db → Text → ℕ → ℕ → SharedStatus → User → Queue → SharedPage
shared_page db slug page page_size status u q =
    let shown = counted_status status u in
    let total : ℕ = count_shared db u q.video_queue_id shown in
    let window = get_pagination_window total page page_size in
    record {
      items =
          map (shared_video db.jobs)
            (window_of window.offset page_size (shared_rows db slug q.video_queue_id shown));
      video_queue_id = q.video_queue_id;
      queues = list_queues u.user_id db.queues;
      page = window.page;
      page_size = page_size;
      priorities = shared_priorities db u.user_id q.video_queue_id shown;
      show_watched_videos = u.public_queue_show_watched;
      status = shown;
      total = total;
      total_pages = window.total_pages;
    }

unfoldable pub list_shared_page : Db → Text → ℕ → ℕ → SharedStatus → Option ℕ → Option SharedPage
list_shared_page db slug page page_size status queue_id =
    elim (head? (summaries (users_with slug db.users) queue_id db.queues)) [
      | none ↦ none
      | some (u, q) ↦
          if u.public_queue_enabled
          then some (shared_page db slug page page_size status u q)
          else none
    ]
