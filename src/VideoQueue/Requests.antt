-- ===== src/VideoQueue/Requests.antt =====
-- The users' calls of PostgresVideoQueue, one after the other
-- (apps/web/src/server/video-queue/postgres.ts): a call that fails leaves the tables as they were.
pub mod Rows
pub mod Queues
pub mod Always
use streambrew.Base.{
  ℕ, ◌≡◌, ◌∙◌, refl, sym, ap, subst, ◌⊎◌, inl, inr, Bool, true, false, not, ◌&&◌, ◌||◌, List, [],
  ◌∷◌, map, Text, Option, none, some, arith, anyb, filterb, head?, All, All-mono, ◌==◌, ltb,
  Bool-cases, Option-cases, if◌then◌else◌, Result, ok, err, ◌>>=◌, ◌>>◌, guard, or_fail, >>=-eq-ok,
}
use streambrew.VideoQueue.Queues.{
  Queue, create_queue, update_queue, VideoQueueError, constraint_violated, invalid_video_timing,
  invalid_youtube_url, video_queue_not_found, video_not_found, is_of,
}
use streambrew.VideoQueue.Tables.{
  Video, Priority, QueueCurrency, Db, option_eq, owner, has_queue, has_priority, keeps_priority,
  owns_video,
}
use streambrew.VideoQueue.Videos.{
  retry_metadata, is_timed, is_video, write_video, edited, update_videos, with_videos, given,
  move_video, update_video, update_status, new_video, add_manual_video, is_chosen,
}
use streambrew.VideoQueue.Priorities.{
  convert_db, convert_priority, convert_amount, is_amount, repriced, is_priority, update_priority,
  set_queue_currency, conversion_factor_for_currency_change, currency_of, currency_eq,
}
use streambrew.VideoQueue.Owned.{IsValid, write_video-IsValid, update_videos-All}

pub data Request : Type 0 where
  move : ℕ → ℕ → ℕ → Request
  update : ℕ → ℕ → ℕ → ℕ → Option ℕ → Request
  status : ℕ → ℕ → Option (Option ℕ) → Option (Option ℕ) → Request
  add : ℕ → ℕ → ℕ → Text → Option Text → ℕ → ℕ → Option ℕ → Option ℕ → Request
  reprice : ℕ → ℕ → Text → ℕ → Request
  currency : ℕ → QueueCurrency → ℕ → Request
  new_queue : (new_id u : ℕ) (label : Text) → Request
  change_queue : (u id : ℕ) (label : Text) (is_default : Bool) → Request
  retry : (now u id : ℕ) → Request

abbrev pub committed : Db → Result VideoQueueError Db → Db
committed db (ok after) = after
committed db (err e) = db

abbrev pub with_priorities :
    Db → Result VideoQueueError (Priority × List Priority) → Result VideoQueueError Db
with_priorities db r = r >>= λ x. ok (record db { priorities = x.1 })

abbrev pub with_queues :
    Db → Result VideoQueueError (Queue × List Queue) → Result VideoQueueError Db
with_queues db r = r >>= λ x. ok (record db { queues = x.1 })

unfoldable pub step : Db → Request → Db
step db (move u id queue_id) = committed db (move_video u id queue_id db)
step db (update u id amount start_seconds end_seconds) =
    committed db (update_video u id amount start_seconds end_seconds db)
step db (status u id watched_at bookmarked_at) =
    committed db (update_status u id watched_at bookmarked_at db)
step db (add new_id now u url youtube_id amount start_seconds end_seconds queue_id) =
    committed db
      (add_manual_video new_id now u url youtube_id amount start_seconds end_seconds queue_id db)
step db (reprice u id label threshold) =
    committed db (with_priorities db (update_priority u id label threshold db.priorities))
step db (currency u to rate) = committed db (set_queue_currency u to rate db >>= λ x. ok x.1)
step db (new_queue new_id u label) =
    committed db (with_queues db (create_queue new_id u label db.queues))
step db (change_queue u id label is_default) =
    committed db (with_queues db (update_queue u id label is_default db.queues))
step db (retry now u id) = (retry_metadata now u id db).1

unfoldable pub run : Db → List Request → Db
run db [] = db
run db (r ∷ rs) = run (step db r) rs
