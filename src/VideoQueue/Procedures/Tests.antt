-- ===== src/VideoQueue/Procedures/Tests.antt =====
-- Examples of the video API (apps/web/src/server/api/trpc/video.ts).
use streambrew.Base.{◌≡◌, refl, Text, codes, Option, none, some, err}
use streambrew.VideoQueue.Queues.{create_queue}
use streambrew.VideoQueue.Tables.{owns_video}
use streambrew.VideoQueue.Videos.{move_video, update_videos}
use streambrew.VideoQueue.Shared.Tests.{db}
use streambrew.VideoQueue.Procedures.{
  unauthorized, bad_request, not_found, conflict, translate_video_queue_error, create_video_queue,
  move, update_video_details, valid_input, call_queue, call_procedure, Drawn,
}

abbrev youtube_id : Text → Option Text
youtube_id url = some url

abbrev drawn : Drawn
drawn = record { new_id = 30; now = 100 }

signed_out : call_procedure youtube_id drawn none db (move 20 1) ≡ err unauthorized
unfolding call_procedure
signed_out = refl

-- The label is trimmed before it is compared.
same_label :
    call_procedure youtube_id drawn (some 7) db (create_video_queue (codes " Main ")) ≡ err conflict
unfolding call_procedure valid_input call_queue create_queue translate_video_queue_error
same_label = refl

blank_label :
    call_procedure youtube_id drawn (some 7) db (create_video_queue (codes "  ")) ≡ err bad_request
unfolding call_procedure valid_input
blank_label = refl

ends_first :
    call_procedure youtube_id drawn
      (some 7)
      db
      (update_video_details 20 (record { amount = 1; start_seconds = 5; end_seconds = some 5 }))
    ≡ err bad_request
unfolding call_procedure valid_input
ends_first = refl

unknown_queue : call_procedure youtube_id drawn (some 7) db (move 20 9) ≡ err not_found
unfolding call_procedure valid_input call_queue move_video update_videos owns_video
    translate_video_queue_error
unknown_queue = refl
