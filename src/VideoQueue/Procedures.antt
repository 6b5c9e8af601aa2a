-- ===== src/VideoQueue/Procedures.antt =====
-- The procedures of the video API that write (apps/web/src/server/api/trpc/video.ts): the session, the
-- conditions on the inputs, the call of the queue, and the code of an error.
mod Tests
use streambrew.Base.{
  ℕ, Bool, true, false, not, ◌&&◌, ◌||◌, Text, Option, none, some, length, leb, ltb, ◌==◌,
  if◌then◌else◌, Result, err, ok,
}
use streambrew.VideoQueue.Queues.{
  VideoQueueError, invalid_youtube_url, youtube_timing_unavailable, invalid_video_timing,
  video_not_found, video_queue_not_found, video_queue_name_taken, video_priority_not_found,
  video_priority_label_taken, invalid_video_priority_threshold, constraint_violated, trimmed,
  valid_label, create_queue, update_queue,
}
use streambrew.VideoQueue.Tables.{QueueCurrency, Db}
use streambrew.VideoQueue.Videos.{
  move_video, update_video, update_status, add_manual_video, retry_metadata,
}
use streambrew.VideoQueue.Priorities.{update_priority, set_queue_currency}
use streambrew.VideoQueue.Requests.{with_queues, with_priorities}

pub data ApiError : Type 0 where
  unauthorized bad_request not_found conflict thrown_on : ApiError

-- translateVideoQueueError; another error is thrown on.
unfoldable pub translate_video_queue_error : VideoQueueError → ApiError
translate_video_queue_error video_queue_not_found = not_found
translate_video_queue_error video_queue_name_taken = conflict
translate_video_queue_error invalid_youtube_url = bad_request
translate_video_queue_error youtube_timing_unavailable = bad_request
translate_video_queue_error video_not_found = not_found
translate_video_queue_error video_priority_not_found = not_found
translate_video_queue_error video_priority_label_taken = conflict
translate_video_queue_error invalid_video_priority_threshold = bad_request
translate_video_queue_error invalid_video_timing = bad_request
translate_video_queue_error constraint_violated = thrown_on

abbrev pub max_video_seconds : ℕ
max_video_seconds = 2_147_483_647

-- Times and a start and an end of a video.
pub record VideoDetails : Type 0 where
  pub amount : ℕ
  pub start_seconds : ℕ
  pub end_seconds : Option ℕ

abbrev pub valid_end : ℕ → Option ℕ → Bool
valid_end start_seconds none = true
valid_end start_seconds (some e) = leb 1 e && (leb e max_video_seconds && ltb start_seconds e)

-- videoDetailsShape with validVideoTiming
abbrev pub valid_details : VideoDetails → Bool
valid_details d = leb d.start_seconds max_video_seconds && valid_end d.start_seconds d.end_seconds

abbrev pub is_given : Option (Option ℕ) → Bool
is_given none = false
is_given (some t) = true

pub data VideoCall : Type 0 where
  create_video_queue : (label : Text) → VideoCall
  update_video_queue : (id : ℕ) (label : Text) (is_default : Bool) → VideoCall
  move : (id queue_id : ℕ) → VideoCall
  update_queue_currency : (currency : QueueCurrency) (rate : ℕ) → VideoCall
  add_video : (url : Text) (details : VideoDetails) (queue_id : Option ℕ) → VideoCall
  update_video_priority : (id : ℕ) (label : Text) (min_price_per_minute : ℕ) → VideoCall
  update_video_status : (id : ℕ) (watched_at bookmarked_at : Option (Option ℕ)) → VideoCall
  retry_video_metadata : (id : ℕ) → VideoCall
  update_video_details : (id : ℕ) (details : VideoDetails) → VideoCall

-- `youtube_id` is youtubeVideoId, a parameter as the URL parser is.
unfoldable pub valid_input : (Text → Option Text) → VideoCall → Bool
valid_input youtube_id (create_video_queue label) = valid_label label
valid_input youtube_id (update_video_queue id label is_default) = leb 1 id && valid_label label
valid_input youtube_id (move id queue_id) = leb 1 queue_id
valid_input youtube_id (update_queue_currency currency rate) = not (rate == 0)
valid_input youtube_id (add_video url details queue_id) = elim (youtube_id url) [
  | none ↦ false
  | some id ↦ valid_details details
]
valid_input youtube_id (update_video_priority id label threshold) = leb 1 id && valid_label label
valid_input youtube_id (update_video_status id watched_at bookmarked_at) =
    is_given watched_at || is_given bookmarked_at
valid_input youtube_id (retry_video_metadata id) = true
valid_input youtube_id (update_video_details id details) = valid_details details

abbrev pub translated : Result VideoQueueError Db → Result ApiError Db
translated (ok db) = ok db
translated (err reason) = err (translate_video_queue_error reason)

-- An error of setQueueCurrency is not translated.
abbrev pub untranslated : Result VideoQueueError (QueueCurrency × Db) → Result ApiError Db
untranslated (ok (currency, db)) = ok db
untranslated (err reason) = err thrown_on

-- What the database draws for a call: the next number of a sequence, and the time.
pub record Drawn : Type 0 where
  pub new_id : ℕ
  pub now : ℕ

unfoldable pub call_queue : (Text → Option Text) → Drawn → ℕ → Db → VideoCall → Result ApiError Db
call_queue youtube_id drawn u db (create_video_queue label) =
    translated (with_queues db (create_queue drawn.new_id u (trimmed label) db.queues))
call_queue youtube_id drawn u db (update_video_queue id label is_default) =
    translated (with_queues db (update_queue u id (trimmed label) is_default db.queues))
call_queue youtube_id drawn u db (move id queue_id) = translated (move_video u id queue_id db)
call_queue youtube_id drawn u db (update_queue_currency currency rate) =
    untranslated (set_queue_currency u currency rate db)
call_queue youtube_id drawn u db (add_video url details queue_id) = translated (
    add_manual_video drawn.new_id drawn.now u url (youtube_id url) details.amount
      details.start_seconds details.end_seconds queue_id db)
call_queue youtube_id drawn u db (update_video_priority id label threshold) =
    translated (with_priorities db (update_priority u id (trimmed label) threshold db.priorities))
call_queue youtube_id drawn u db (update_video_status id watched_at bookmarked_at) =
    translated (update_status u id watched_at bookmarked_at db)
call_queue youtube_id drawn u db (retry_video_metadata id) = ok (retry_metadata drawn.now u id db).1
call_queue youtube_id drawn u db (update_video_details id details) =
    translated (update_video u id details.amount details.start_seconds details.end_seconds db)

-- The session names the user, or there is none; an input that its schema refuses is a bad request.
unfoldable pub call_procedure :
    (Text → Option Text) → Drawn → Option ℕ → Db → VideoCall → Result ApiError Db
call_procedure youtube_id drawn none db call = err unauthorized
call_procedure youtube_id drawn (some u) db call =
    if valid_input youtube_id call then call_queue youtube_id drawn u db call else err bad_request
