-- ===== src/VideoQueue/Tests.antt =====
-- Examples of the video queues (apps/web/src/server/video-queue/postgres.ts).
use streambrew.Base.{
  ◌≡◌, refl, ◌⊎◌, true, false, List, [], ◌∷◌, none, some, arith, filterb, ◌==◌, if◌then◌else◌, ok,
  err,
}
use streambrew.VideoQueue.Queues.{
  Queue, video_queue_not_found, video_queue_name_taken, constraint_violated, relabel, valid_label,
  find, is_of, update_queue,
}
use streambrew.VideoQueue.Queues.Default.{is_refused, defaults, ids, is_taken, update_queue_cases}
use streambrew.VideoQueue.Tables.{
  Video, User, rub, usd, Db, owner, owns_video, choose, best, meets, keeps_priority,
  set_video_priority_id,
}
use streambrew.VideoQueue.Tables.Best.{Chosen, set_video_priority_id-Chosen}
use streambrew.VideoQueue.Videos.{update_videos, write_video}
use streambrew.VideoQueue.Priorities.{
  convert_db, convert_priority, convert, conversion_factor_for_currency_change,
  default_currency_change_rate, set_queue_currency,
}
use streambrew.VideoQueue.Priorities.Thresholds.{
  IsPriced, set_queue_currency-IsPriced, there_and_back,
}
use streambrew.VideoQueue.Requests.{
  Request, move, update, status, reprice, currency, new_queue, change_queue, retry, run,
}
use streambrew.VideoQueue.Requests.Rows.{IsOwned}
use streambrew.VideoQueue.Requests.Always.{calls_keep_owners}

abbrev queues : List Queue
queues =
    record { video_queue_id = 1; user_id = 7; label = b'a' ∷ []; is_default = true }
    ∷ record { video_queue_id = 2; user_id = 7; label = b'b' ∷ []; is_default = false }
    ∷ record { video_queue_id = 3; user_id = 8; label = b'a' ∷ []; is_default = true }
    ∷ []

-- An empty label is refused.
empty_label : update_queue 7 2 [] true queues ≡ err constraint_violated
unfolding update_queue relabel
empty_label = refl

update_queue_cases_example :
    let updated = update_queue 7 2 (b'c' ∷ []) true queues in
    ((find (is_of 7 2) queues ≡ none) × (updated ≡ err video_queue_not_found))
    ⊎ (((old : Queue) × (find (is_of 7 2) queues ≡ some old)
          × (valid_label old.label ≡ false)
          × (updated ≡ err constraint_violated))
        ⊎ (((is_taken 7 2 (b'c' ∷ []) queues ≡ true) × (updated ≡ err video_queue_name_taken))
            ⊎ (((is_refused (b'c' ∷ []) ≡ true) × (updated ≡ err constraint_violated))
                ⊎ ((queue : Queue) × (after : List Queue) × (updated ≡ ok (queue, after))
                    × (ids (defaults 7 after) ≡ (if true then 2 ∷ [] else ids (defaults 7 queues)))
                    × (filterb (λ q. q.user_id == 8) after
                        ≡ filterb (λ q. q.user_id == 8) queues)))))
update_queue_cases_example =
    update_queue_cases 7 2 8 (b'c' ∷ []) true queues (refl, (refl, (refl, tt))) refl (omega arith)

abbrev video : Video
video = record {
  video_id = 20;
  donation_id = none;
  user_id = some 7;
  added_at = some 3;
  url = [];
  provider_video_id = [];
  queue_amount = some 500;
  start_seconds = 0;
  end_seconds = some 60;
  duration_seconds = some 90;
  watched_at = none;
  bookmarked_at = none;
  video_priority_id = some 5;
  title = none;
  video_queue_id = 1;
}

abbrev user : User
user = record {
  user_id = 7;
  auth_user_id = b'i' ∷ [];
  slug = b's' ∷ [];
  queue_currency = usd;
  public_queue_enabled = true;
  public_queue_show_amounts = false;
  public_queue_show_watched = false;
}

abbrev db : Db
db = record {
  users = user ∷ [];
  queues = queues;
  donations = [];
  priorities =
      record {
        video_priority_id = 4;
        user_id = 7;
        label = b'd' ∷ [];
        min_price_per_minute = 0;
        is_default = true;
      }
      ∷ record {
        video_priority_id = 5;
        user_id = 7;
        label = b'e' ∷ [];
        min_price_per_minute = 300;
        is_default = false;
      }
      ∷ [];
  videos = video ∷ [];
  jobs = [];
}

chosen : set_video_priority_id db false video ≡ ok video
unfolding set_video_priority_id owner choose best meets
chosen = refl

set_video_priority_id-Chosen_example :
    Chosen db.priorities (owner db.donations video) 500 0 60 video
set_video_priority_id-Chosen_example =
    set_video_priority_id-Chosen db video video 500 60 refl refl refl chosen

abbrev requests : List Request
requests =
    move 7 20 2
    ∷ update 7 20 100 10 none
    ∷ status 7 20 (some (some 9)) none
    ∷ reprice 7 5 [] 700
    ∷ currency 7 rub 9_000
    ∷ new_queue 9 7 (b'z' ∷ [])
    ∷ change_queue 7 9 (b'y' ∷ []) true
    ∷ retry 100 7 20
    ∷ []

db-IsOwned : IsOwned db
unfolding owner
db-IsOwned = record { videos = (record { queue = refl; priority = refl; timing = refl }, tt) }

calls_keep_owners_example : IsOwned (run db requests)
calls_keep_owners_example = calls_keep_owners db requests db-IsOwned

db-IsPriced : IsPriced db
db-IsPriced = record { priorities = (refl, (refl, tt)) }

abbrev priced_db : Db
priced_db = record db {
  users = record user { queue_currency = rub } ∷ [];
  priorities =
      record {
        video_priority_id = 4;
        user_id = 7;
        label = b'd' ∷ [];
        min_price_per_minute = 0;
        is_default = true;
      }
      ∷ record {
        video_priority_id = 5;
        user_id = 7;
        label = b'e' ∷ [];
        min_price_per_minute = 27_000;
        is_default = false;
      }
      ∷ [];
  videos = record video { queue_amount = some 45_000 } ∷ [];
}

changed : set_queue_currency 7 rub 9_000 db ≡ ok (rub, priced_db)
unfolding set_queue_currency convert_db convert_priority convert
    conversion_factor_for_currency_change update_videos write_video set_video_priority_id owner
    owns_video choose best meets keeps_priority
changed = refl

set_queue_currency-IsPriced_example : IsPriced priced_db
set_queue_currency-IsPriced_example =
    set_queue_currency-IsPriced 7 rub 9_000 db (rub, priced_db) db-IsPriced changed

there_and_back_example :
    let rate = default_currency_change_rate usd rub in
    let there = conversion_factor_for_currency_change usd rub rate in
    let back = conversion_factor_for_currency_change rub usd rate in
    convert back.0 back.1 (convert there.0 there.1 1_234) ≡ 1_234
there_and_back_example = there_and_back usd rub 1_234 refl
