-- ===== src/VideoQueue/OwnerPage.antt =====
-- The page of a queue that its owner sees (`listPage` in
-- apps/web/src/server/video-queue/postgres.ts).
pub mod Whole
mod Tests
use streambrew.Base.{
  ℕ, ◌+◌, Bool, true, false, not, ◌&&◌, List, [], ◌∷◌, ◌++◌, map, Option, none, some, ◌==◌,
  if◌then◌else◌, filterb, head?, length, anyb,
}
use streambrew.VideoQueue.Queues.{Queue}
use streambrew.VideoQueue.Tables.{Video, Priority, User, MetadataJob, Db, option_eq, owner, is_some}
use streambrew.VideoQueue.Pages.{get_pagination_window}
use streambrew.VideoQueue.Listing.{
  Row, rows_of, created_at, nulls_first, is_before, sort, window_of,
}
use streambrew.VideoQueue.Shared.{is_unavailable, seconds_of}

pub data VideoStatus : Type 0 where
  all notwatched watched bookmarked : VideoStatus

-- videoPriorityId: null, "unassigned" or a number
pub data PriorityFilter : Type 0 where
  any_priority unassigned : PriorityFilter
  assigned : ℕ → PriorityFilter

pub record PageInput : Type 0 where
  pub page : ℕ
  pub page_size : ℕ
  pub priority : PriorityFilter
  pub status : VideoStatus
  pub video_id : Option ℕ
  pub video_queue_id : Option ℕ

-- coalesce
abbrev pub first_of : Option ℕ → Option ℕ → Option ℕ
first_of none next = next
first_of (some n) next = some n

abbrev pub queue_of_video : List Video → Option ℕ → Option ℕ
queue_of_video vs none = none
queue_of_video vs (some id) = elim (head? (filterb (λ v. v.video_id == id) vs)) [
  | some v ↦ some v.video_queue_id
  | none ↦ none
]

abbrev pub default_queue : ℕ → List Queue → Option ℕ
default_queue u qs = elim (head? (filterb (λ q. q.user_id == u && q.is_default) qs)) [
  | some q ↦ some q.video_queue_id
  | none ↦ none
]

unfoldable pub page_queue : Db → ℕ → PageInput → Option Queue
page_queue db u input =
    let wanted =
      first_of input.video_queue_id
        (first_of (queue_of_video db.videos input.video_id) (default_queue u db.queues)) in
    head? (filterb (λ q. q.user_id == u && option_eq wanted (some q.video_queue_id)) db.queues)

abbrev pub has_status : VideoStatus → Video → Bool
has_status all v = true
has_status notwatched v = not (is_some v.watched_at)
has_status watched v = is_some v.watched_at
has_status bookmarked v = is_some v.bookmarked_at

abbrev pub has_priority : PriorityFilter → Video → Bool
has_priority any_priority v = true
has_priority unassigned v = not (is_some v.video_priority_id)
has_priority (assigned id) v = option_eq v.video_priority_id (some id)

abbrev pub is_focused : Option ℕ → Video → Bool
is_focused none v = true
is_focused (some id) v = v.video_id == id

-- coalesce(video.user_id, donation.user_id) = u
abbrev pub is_owned : Db → ℕ → Video → Bool
is_owned db u v = option_eq (owner db.donations v) (some u)

abbrev pub is_wanted : PageInput → ℕ → Video → Bool
is_wanted input queue_id v =
    v.video_queue_id == queue_id
    && (is_focused input.video_id v && (has_priority input.priority v && has_status input.status v))

unfoldable pub count_wanted : Db → ℕ → PageInput → ℕ → ℕ
count_wanted db u input queue_id =
    length (filterb (λ v. is_owned db u v && is_wanted input queue_id v) db.videos)

abbrev pub count_status : Db → ℕ → ℕ → VideoStatus → ℕ
count_status db u queue_id status = length (
    filterb (λ v. (is_owned db u v && v.video_queue_id == queue_id) && has_status status v)
      db.videos)

pub record StatusCounts : Type 0 where
  pub all : ℕ
  pub notwatched : ℕ
  pub watched : ℕ
  pub bookmarked : ℕ

unfoldable pub status_counts : Db → ℕ → ℕ → StatusCounts
status_counts db u queue_id = record {
  all = count_status db u queue_id all;
  notwatched = count_status db u queue_id notwatched;
  watched = count_status db u queue_id watched;
  bookmarked = count_status db u queue_id bookmarked;
}

-- GROUP BY video_priority_id, where those without one come under 0.
abbrev pub group_of : Video → ℕ
group_of v = elim v.video_priority_id [ some id ↦ id | none ↦ 0 ]

abbrev pub add_to_group : ℕ → List (ℕ × ℕ) → List (ℕ × ℕ)
add_to_group id [] = (id, 1) ∷ []
add_to_group id ((other, n) ∷ groups) =
    if other == id then (other, n + 1) ∷ groups else (other, n) ∷ add_to_group id groups

abbrev pub groups : List Video → List (ℕ × ℕ)
groups [] = []
groups (v ∷ vs) = add_to_group (group_of v) (groups vs)

unfoldable pub priority_counts : Db → ℕ → ℕ → VideoStatus → List (ℕ × ℕ)
priority_counts db u queue_id status = groups (
    filterb (λ v. (is_owned db u v && v.video_queue_id == queue_id) && has_status status v)
      db.videos)

-- sum(end_seconds - start_seconds) of what is not watched, for every priority of the user.
unfoldable pub remaining_seconds : Db → ℕ → ℕ → List (ℕ × ℕ)
remaining_seconds db u queue_id =
    map
      (λ p. (
        p.video_priority_id,
        seconds_of (
            filterb
              (λ v.
                option_eq v.video_priority_id (some p.video_priority_id)
                && (v.video_queue_id == queue_id && has_status notwatched v))
              db.videos),
      ))
      (filterb (λ p. p.user_id == u) db.priorities)

-- available_at of a job that is not completed
abbrev pub retry_at : List MetadataJob → ℕ → Option ℕ
retry_at jobs id =
    elim (head? (filterb (λ j. j.video_id == id && not (is_some j.completed_at)) jobs)) [
      | some j ↦ some j.available_at
      | none ↦ none
    ]

-- An item: the columns are those of the row.
pub record OwnerVideo : Type 0 where
  pub row : Row
  pub metadata_unavailable : Bool
  pub metadata_retry_at : Option ℕ
  pub is_manual : Bool
  pub created : Option ℕ

unfoldable pub owner_video : List MetadataJob → Row → OwnerVideo
owner_video jobs r = record {
  row = r;
  metadata_unavailable = is_unavailable jobs r.video.video_id;
  metadata_retry_at = retry_at jobs r.video.video_id;
  is_manual = elim r.donation [ some _ ↦ false | none ↦ true ];
  created = created_at r;
}

abbrev pub order_keys : VideoStatus → Row → List ℕ
order_keys watched r = nulls_first r.video.watched_at ++ r.video.video_id ∷ []
order_keys bookmarked r = nulls_first r.video.bookmarked_at ++ r.video.video_id ∷ []
order_keys all r = nulls_first (created_at r) ++ r.video.video_id ∷ []
order_keys notwatched r = nulls_first (created_at r) ++ r.video.video_id ∷ []

abbrev pub goes_first : VideoStatus → Row → Row → Bool
goes_first status r s = is_before (order_keys status r) (order_keys status s)

-- The rows of the query before LIMIT and OFFSET.
unfoldable pub wanted_rows : Db → ℕ → PageInput → ℕ → List Row
wanted_rows db u input queue_id = sort (goes_first input.status) (
    rows_of db (filterb (λ w. w.user_id == u) db.users)
      (filterb (is_wanted input queue_id) db.videos))

pub record OwnerPage : Type 0 where
  pub queue : Queue
  pub items : List OwnerVideo
  pub page : ℕ
  pub page_size : ℕ
  pub priority_counts : List (ℕ × ℕ)
  pub remaining_seconds : List (ℕ × ℕ)
  pub status_counts : StatusCounts
  pub total : ℕ
  pub total_pages : ℕ

unfoldable pub owner_page : Db → ℕ → PageInput → Queue → OwnerPage
owner_page db u input q =
    let total : ℕ = count_wanted db u input q.video_queue_id in
    let window = get_pagination_window total input.page input.page_size in
    record {
      queue = q;
      items =
          map (owner_video db.jobs)
            (window_of window.offset input.page_size (wanted_rows db u input q.video_queue_id));
      page = window.page;
      page_size = input.page_size;
      priority_counts = priority_counts db u q.video_queue_id input.status;
      remaining_seconds = remaining_seconds db u q.video_queue_id;
      status_counts = status_counts db u q.video_queue_id;
      total = total;
      total_pages = window.total_pages;
    }

-- None is the error that the queue is not found.
unfoldable pub list_page : Db → ℕ → PageInput → Option OwnerPage
list_page db u input = elim (page_queue db u input) [
  | none ↦ none
  | some q ↦ some (owner_page db u input q)
]
