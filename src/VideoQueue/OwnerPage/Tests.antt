-- ===== src/VideoQueue/OwnerPage/Tests.antt =====
-- Examples of the owner's page (`listPage` in apps/web/src/server/video-queue/postgres.ts).
use streambrew.Base.{◌≡◌, refl, true, codes, [], ◌∷◌, map, none, some}
use streambrew.VideoQueue.Queues.{Queue}
use streambrew.VideoQueue.Tables.{owner}
use streambrew.VideoQueue.Pages.{get_pagination_window, total_pages_of}
use streambrew.VideoQueue.Listing.{rows_of}
use streambrew.VideoQueue.Listing.Sorted.{up_to}
use streambrew.VideoQueue.Shared.Tests.{db, user}
use streambrew.VideoQueue.OwnerPage.{
  all, any_priority, PageInput, page_queue, count_wanted, priority_counts, remaining_seconds,
  owner_video, wanted_rows, owner_page, list_page,
}
use streambrew.VideoQueue.OwnerPage.Whole.{Whole, items_of, at_page, list_page-Whole}

abbrev input : PageInput
input = record {
  page = 1;
  page_size = 25;
  priority = any_priority;
  status = all;
  video_id = some 21;
  video_queue_id = none;
}

abbrev main : Queue
main = record { video_queue_id = 1; user_id = 7; label = codes "Main"; is_default = true }

found : list_page db 7 input ≡ some (owner_page db 7 input main)
unfolding list_page page_queue
found = refl

newest_first :
    map (λ v. v.row.video.video_id) (items_of (list_page db 7 (record input { video_id = none })))
    ≡ 23 ∷ 22 ∷ 21 ∷ 20 ∷ []
unfolding list_page page_queue owner_page count_wanted wanted_rows rows_of owner owner_video
    get_pagination_window total_pages_of
newest_first = refl

counted : priority_counts db 7 1 all ≡ (0, 2) ∷ (5, 1) ∷ (4, 1) ∷ []
unfolding priority_counts owner
counted = refl

seconds : remaining_seconds db 7 1 ≡ (4, 60) ∷ (5, 60) ∷ []
unfolding remaining_seconds
seconds = refl

list_page-Whole_example : Whole db 7 input (owner_page db 7 input main) (
    up_to
      (λ k. items_of (list_page db 7 (at_page input k)))
      (owner_page db 7 input main).total_pages)
list_page-Whole_example =
    list_page-Whole db 7 input (owner_page db 7 input main) user refl refl refl found
