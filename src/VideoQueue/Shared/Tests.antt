-- ===== src/VideoQueue/Shared/Tests.antt =====
-- Examples of the shared queue (`listSharedPage` in apps/web/src/server/video-queue/postgres.ts).
use streambrew.Base.{ℕ, ◌≡◌, refl, true, false, [], ◌∷◌, map, codes, Option, none, some, arith, All}
use streambrew.VideoQueue.Tables.{rub, Video, User, Db, owner}
use streambrew.VideoQueue.Pages.{get_pagination_window, total_pages_of}
use streambrew.VideoQueue.Listing.{rows_of}
use streambrew.VideoQueue.Listing.Sorted.{up_to}
use streambrew.VideoQueue.Shared.{
  queue, watched, SharedStatus, SharedPage, shared_video, count_shared, shared_rows, users_with,
  shared_page, list_shared_page,
}
use streambrew.VideoQueue.Shared.Private.{IsPublic, HasVideo, list_shared_page-IsPublic}
use streambrew.VideoQueue.Shared.Whole.{Whole, items_of, list_shared_page-Whole}

abbrev pub user : User
user = record {
  user_id = 7;
  auth_user_id = codes "i";
  slug = codes "ann";
  queue_currency = rub;
  public_queue_enabled = true;
  public_queue_show_amounts = false;
  public_queue_show_watched = false;
}

abbrev video : ℕ → Option ℕ → Option ℕ → Video
video id priority watched_at = record {
  video_id = id;
  donation_id = none;
  user_id = some 7;
  added_at = some 3;
  url = [];
  provider_video_id = [];
  queue_amount = some 500;
  start_seconds = 0;
  end_seconds = some 60;
  duration_seconds = some 90;
  watched_at = watched_at;
  bookmarked_at = none;
  video_priority_id = priority;
  title = none;
  video_queue_id = 1;
}

abbrev pub db : Db
db = record {
  users = user ∷ [];
  queues = record { video_queue_id = 1; user_id = 7; label = codes "Main"; is_default = true } ∷ [];
  donations = [];
  priorities =
      record {
        video_priority_id = 4;
        user_id = 7;
        label = codes "a";
        min_price_per_minute = 0;
        is_default = true;
      }
      ∷ record {
        video_priority_id = 5;
        user_id = 7;
        label = codes "b";
        min_price_per_minute = 300;
        is_default = false;
      }
      ∷ [];
  videos =
      video 20 none none
      ∷ video 21 (some 4) none
      ∷ video 22 (some 5) none
      ∷ video 23 none (some 9)
      ∷ [];
  jobs = [];
}

abbrev page : SharedStatus → SharedPage
page status =
    shared_page db (codes "ann") 1 25 status user
      (record { video_queue_id = 1; user_id = 7; label = codes "Main"; is_default = true })

shown :
    (status : SharedStatus)
    → list_shared_page db (codes "ann") 1 25 status none ≡ some (page status)
unfolding list_shared_page
shown status = refl

-- The video of the higher priority first, those of none last, and the watched one not at all.
order : map (λ v. v.video_id) (page watched).items ≡ 22 ∷ 21 ∷ 20 ∷ []
unfolding shared_page count_shared shared_rows rows_of owner shared_video get_pagination_window
    total_pages_of
order = refl

list_shared_page-Whole_example : Whole db (codes "ann") (page queue) (
    up_to
      (λ k. items_of (list_shared_page db (codes "ann") k 25 queue none))
      (page queue).total_pages)
list_shared_page-Whole_example =
    list_shared_page-Whole db (codes "ann") 1 queue none (page queue) (omega arith) (shown queue)

list_shared_page-IsPublic_example :
    (u : User) × (users_with (codes "ann") db.users ≡ u ∷ [])
    × (u.public_queue_enabled ≡ true)
    × All (λ v. IsPublic u v × HasVideo db u (page watched).video_queue_id v) (page watched).items
list_shared_page-IsPublic_example =
    list_shared_page-IsPublic db (codes "ann") 1 25 watched none (page watched) (omega arith)
      (shown watched)
