-- ===== src/VideoQueue/Queues.antt =====
-- The table video_queue of db/schema.sql and the operations of PostgresVideoQueue on it
-- (apps/web/src/server/video-queue/postgres.ts). Each takes the table and returns the new one, or the
-- error, which rolls the transaction back.
pub mod Default
use streambrew.Timing.Parse.{trim_start, trim_end}
use streambrew.Base.{
  label_check, leb, length, ℕ, Bool, true, false, not, ◌&&◌, ◌||◌, List, [], ◌∷◌, ◌++◌, map, Text,
  text_eq, Option, none, some, anyb, filterb, order_by, ◌==◌, if◌then◌else◌, Result, ok, err, ◌>>=◌,
  ◌>>◌, guard, or_fail,
}

pub record Queue : Type 0 where
  pub video_queue_id : ℕ
  pub user_id : ℕ
  pub label : Text
  pub is_default : Bool

-- VideoQueueErrorType, and any other error: the violation of a constraint that it has no entry for, or
-- a row that does not parse.
pub data VideoQueueError : Type 0 where
  invalid_youtube_url youtube_timing_unavailable invalid_video_timing video_not_found
        video_queue_not_found video_queue_name_taken video_priority_not_found
        video_priority_label_taken invalid_video_priority_threshold constraint_violated :
      VideoQueueError

abbrev pub trimmed : Text → Text
trimmed label = trim_end (trim_start label)

-- z.string().trim().min(1).max(64)
abbrev pub valid_label : Text → Bool
valid_label label = leb 1 (length (trimmed label)) && leb (length (trimmed label)) 64

unfoldable pub list_queues : ℕ → List Queue → List Queue
list_queues u qs = order_by (λ q. q.video_queue_id) (filterb (λ q. q.user_id == u) qs)

-- WHERE user_id = u AND video_queue_id = id
abbrev pub is_of : ℕ → ℕ → Queue → Bool
is_of u id q = q.user_id == u && q.video_queue_id == id

abbrev pub find : (Queue → Bool) → List Queue → Option Queue
find p [] = none
find p (q ∷ qs) = if p q then some q else find p qs

-- WHERE user_id = u AND label = label
abbrev pub is_named : ℕ → Text → Queue → Bool
is_named u label q = q.user_id == u && text_eq q.label label

-- `ON CONFLICT (user_id, label) DO NOTHING` gives no row, and the CHECK is tested before. The row that
-- comes back parses where the schema of the API has let its label through. The id comes from the
-- table's sequence.
unfoldable pub create_queue :
    ℕ → ℕ → Text → List Queue → Result VideoQueueError (Queue × List Queue)
create_queue new_id u label qs =
    let queue : Queue = record {
      video_queue_id = new_id;
      user_id = u;
      label = label;
      is_default = false;
    } in
    if not (label_check label)
    then err constraint_violated
    else if anyb (is_named u label) qs
    then err video_queue_name_taken
    else if anyb (λ q. q.video_queue_id == new_id) qs
    then err constraint_violated
    else ok (record queue { label = trimmed label }, qs ++ queue ∷ [])

-- UPDATE video_queue SET is_default = false WHERE user_id = u AND is_default
abbrev pub without_default : ℕ → Queue → Queue
without_default u q = if q.user_id == u && q.is_default then record q { is_default = false } else q

abbrev pub labelled : Text → Bool → Queue → Queue
labelled label is_default q = record q { label = label; is_default = is_default }

-- UPDATE … SET label, is_default WHERE user_id = u AND video_queue_id = id, under the CHECK on the label,
-- the unique label of a user and the unique default of a user.
unfoldable pub relabel : ℕ → ℕ → Text → Bool → List Queue → Result VideoQueueError (List Queue)
relabel u id label is_default qs =
    if not (label_check label) && anyb (is_of u id) qs
    then err constraint_violated
    else if anyb (λ q. is_named u label q && not (q.video_queue_id == id)) qs
    then err video_queue_name_taken
    else if is_default
        && anyb (λ q. (q.user_id == u && q.is_default) && not (q.video_queue_id == id)) qs
    then err constraint_violated
    else ok (map (λ q. if is_of u id q then labelled label is_default q else q) qs)

-- The row before and the row that comes back are parsed by VideoQueueSchema, which gives the trimmed
-- label.
unfoldable pub update_queue :
    ℕ → ℕ → Text → Bool → List Queue → Result VideoQueueError (Queue × List Queue)
update_queue u id label is_default qs =
    or_fail (find (is_of u id) qs) video_queue_not_found >>= λ queue.
    guard (valid_label queue.label) constraint_violated
    >> (guard (not (anyb (λ q. is_named u label q && not (q.video_queue_id == id)) qs))
          video_queue_name_taken
        >> (relabel u id label (is_default || queue.is_default)
              (if is_default then map (without_default u) qs else qs)
            >>= λ after.
                guard (valid_label label) constraint_violated
                >> ok (labelled (trimmed label) (is_default || queue.is_default) queue, after)))
