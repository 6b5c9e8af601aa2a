-- ===== src/VideoQueue/Videos.antt =====
-- The operations of PostgresVideoQueue on videos, their metadata jobs and the priorities
-- (apps/web/src/server/video-queue/postgres.ts), with conversionFactorForCurrencyChange
-- (packages/src/currency.ts). Quotients are taken exact where the database rounds them.
use streambrew.Base.{
  ℕ, ◌-◌, Bool, true, false, ◌&&◌, List, [], ◌∷◌, map, Text, Option, none, some, anyb, filterb,
  head?, ◌==◌, ltb, leb, if◌then◌else◌, Result, ok, err, ◌>>=◌, ◌>>◌, guard, or_fail,
}
use streambrew.VideoQueue.Queues.{
  Queue, VideoQueueError, invalid_youtube_url, invalid_video_timing, video_not_found,
  video_queue_not_found, constraint_violated, is_of,
}
use streambrew.VideoQueue.Tables.{
  Video, MetadataJob, Db, owns_video, keeps_priority, set_video_priority_id,
}

-- `video_check1`, and the error that its violation is translated to.
abbrev pub is_timed : ℕ → Option ℕ → Bool
is_timed start_seconds none = true
is_timed start_seconds (some end_seconds) = ltb start_seconds end_seconds

unfoldable pub write_video : Db → Bool → VideoQueueError → Video → Result VideoQueueError Video
write_video db keeps timing_error v = set_video_priority_id db keeps v >>= λ w.
    guard (is_timed w.start_seconds w.end_seconds) timing_error >> ok w

-- UPDATE video … WHERE p, row by row, with the first error.
unfoldable pub update_videos :
    (Video → Bool)
    → (Video → Result VideoQueueError Video)
    → List Video
    → Result VideoQueueError (List Video)
update_videos p f [] = ok []
update_videos p f (v ∷ vs) =
    (if p v then f v else ok v) >>= λ w. update_videos p f vs >>= λ ws. ok (w ∷ ws)

-- WHERE video_id = id AND the user owns it
abbrev pub is_video : Db → ℕ → ℕ → Video → Bool
is_video db u id v = v.video_id == id && owns_video db.donations u v

abbrev pub with_videos : Db → List Video → Db
with_videos db vs = record db { videos = vs }

unfoldable pub move_video : ℕ → ℕ → ℕ → Db → Result VideoQueueError Db
move_video u id queue_id db =
    let hit : Video → Bool = λ v. is_video db u id v && anyb (is_of u queue_id) db.queues in
    update_videos hit
      (λ v.
        write_video db (keeps_priority false v (record v { video_queue_id = queue_id }))
          constraint_violated (record v { video_queue_id = queue_id }))
      db.videos
    >>= λ vs. (if anyb hit db.videos then ok (with_videos db vs) else err video_not_found)

abbrev pub coalesce : Option ℕ → Option ℕ → Option ℕ
coalesce none otherwise = otherwise
coalesce (some a) otherwise = some a

abbrev pub edited : ℕ → ℕ → Option ℕ → Video → Video
edited amount start_seconds end_seconds v = record v {
  queue_amount = some amount;
  start_seconds = start_seconds;
  end_seconds = coalesce end_seconds v.duration_seconds;
}

unfoldable pub update_video : ℕ → ℕ → ℕ → ℕ → Option ℕ → Db → Result VideoQueueError Db
update_video u id amount start_seconds end_seconds db =
    update_videos (is_video db u id)
      (λ v.
        write_video db (keeps_priority false v (edited amount start_seconds end_seconds v))
          invalid_video_timing (edited amount start_seconds end_seconds v))
      db.videos
    >>= λ vs.
        (if anyb (is_video db u id) db.videos then ok (with_videos db vs) else err video_not_found)

-- CASE WHEN it is given THEN it ELSE the column; a given null clears the column.
abbrev pub given : Option (Option ℕ) → Option ℕ → Option ℕ
given none old = old
given (some new) old = new

-- The trigger is not on these columns.
unfoldable pub update_status :
    ℕ → ℕ → Option (Option ℕ) → Option (Option ℕ) → Db → Result VideoQueueError Db
update_status u id watched_at bookmarked_at db =
    if anyb (is_video db u id) db.videos
    then ok (
        with_videos db (
          map
            (λ v.
              if is_video db u id v
              then record v {
                watched_at = given watched_at v.watched_at;
                bookmarked_at = given bookmarked_at v.bookmarked_at;
              }
              else v)
            db.videos))
    else err video_not_found

-- WHERE user_id = u AND (queue_id IS NULL AND is_default OR video_queue_id = queue_id)
abbrev pub is_chosen : ℕ → Option ℕ → Queue → Bool
is_chosen u none q = q.user_id == u && q.is_default
is_chosen u (some id) q = q.user_id == u && q.video_queue_id == id

abbrev pub new_video : ℕ → ℕ → ℕ → Text → Text → ℕ → ℕ → Option ℕ → ℕ → Video
new_video new_id now u url provider_video_id amount start_seconds end_seconds queue_id = record {
  video_id = new_id;
  donation_id = none;
  user_id = some u;
  added_at = some now;
  url = url;
  provider_video_id = provider_video_id;
  queue_amount = some amount;
  start_seconds = start_seconds;
  end_seconds = end_seconds;
  duration_seconds = none;
  watched_at = none;
  bookmarked_at = none;
  video_priority_id = none;
  title = none;
  video_queue_id = queue_id;
}

-- The trigger enqueue_video_metadata_job, of a new row whose duration is not known.
abbrev pub enqueued : ℕ → Video → List MetadataJob → List MetadataJob
enqueued now v jobs = elim v.duration_seconds [
  | some _ ↦ jobs
  | none ↦
      if anyb (λ j. j.video_id == v.video_id) jobs
      then jobs
      else record {
        video_id = v.video_id;
        available_at = now;
        lease_expires_at = none;
        completed_at = none;
        last_attempt_at = none;
        last_error_code = none;
      }
        ∷ jobs
]

-- INSERT of a row that the trigger before it has let through, and the trigger after it.
abbrev pub insert_video : ℕ → Db → Video → Db
insert_video now db v = record db { videos = v ∷ db.videos; jobs = enqueued now v db.jobs }

-- `youtube_id` is `youtubeVideoId(input.url)`. At most one queue is chosen; the id comes from the
-- table's sequence.
unfoldable pub add_manual_video :
    ℕ → ℕ → ℕ → Text → Option Text → ℕ → ℕ → Option ℕ → Option ℕ → Db → Result VideoQueueError Db
add_manual_video new_id now u url youtube_id amount start_seconds end_seconds queue_id db =
    or_fail youtube_id invalid_youtube_url >>= λ provider_video_id.
    or_fail (head? (filterb (is_chosen u queue_id) db.queues)) video_queue_not_found >>= λ queue.
    write_video db false constraint_violated (
      new_video new_id now u url provider_video_id amount start_seconds end_seconds
        queue.video_queue_id)
    >>= λ v. ok (insert_video now db v)

abbrev pub is_past : Option ℕ → ℕ → Bool
is_past none now = true
is_past (some t) now = leb t now

-- Times are in milliseconds.
abbrev pub is_retried : ℕ → ℕ → ℕ → Db → MetadataJob → Bool
is_retried now u id db j =
    (j.video_id == id
      && anyb
          (λ v. is_video db u id v && (elim v.duration_seconds [ none ↦ true | some _ ↦ false ]))
          db.videos)
    && (is_past j.lease_expires_at now && is_past j.last_attempt_at (now - 60_000))

unfoldable pub retry_metadata : ℕ → ℕ → ℕ → Db → Bool × Db
retry_metadata now u id db = (
  anyb (is_retried now u id db) db.jobs,
  record db {
    jobs =
        map
          (λ j.
            if is_retried now u id db j
            then record j { completed_at = none; available_at = now }
            else j)
          db.jobs;
  },
)
