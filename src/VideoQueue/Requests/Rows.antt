-- ===== src/VideoQueue/Requests/Rows.antt =====
-- The calls on videos keep each video in a queue and a priority of its owner
-- (apps/web/src/server/video-queue/postgres.ts).
use streambrew.Base.{
  ℕ, ◌≡◌, refl, subst, inl, inr, Bool, true, false, ◌&&◌, List, [], ◌∷◌, map, Text, Option, arith,
  anyb, filterb, head?, All, All-mono, Bool-cases, if◌then◌else◌, Result, ok, err, ◌>>=◌, or_fail,
  >>=-eq-ok,
}
use streambrew.VideoQueue.Queues.{
  VideoQueueError, constraint_violated, invalid_video_timing, invalid_youtube_url,
  video_queue_not_found, video_not_found, is_of,
}
use streambrew.VideoQueue.Tables.{Video, Db, owner, keeps_priority}
use streambrew.VideoQueue.Videos.{
  is_video, write_video, edited, update_videos, with_videos, insert_video, given, move_video,
  update_video, update_status, new_video, add_manual_video, is_chosen,
}
use streambrew.VideoQueue.Owned.{IsValid, write_video-IsValid, update_videos-All}
use streambrew.VideoQueue.Requests.{committed}

-- The videos of a state.
pub record IsOwned (db : Db) : Type 0 where
  pub videos : All (IsValid db) db.videos

pub committed-IsOwned :
    (db : Db) (r : Result VideoQueueError Db)
    → IsOwned db
    → ((after : Db) → r ≡ ok after → IsOwned after)
    → IsOwned (committed db r)
committed-IsOwned db (ok after) h k = k after refl
committed-IsOwned db (err e) h k = h

with_videos-IsOwned :
    (db : Db) (vs : List Video) → All (IsValid db) vs → IsOwned (with_videos db vs)
with_videos-IsOwned db vs a = record {
  videos =
      All-mono (IsValid db) (IsValid (with_videos db vs))
        (λ v x. record { queue = x.queue; priority = x.priority; timing = x.timing }) vs a;
}

-- The rows are rewritten, and the call succeeds where one was hit.
rewritten-IsOwned :
    (db after : Db) (p : Video → Bool) (f : Video → Result VideoQueueError Video) (hit : Bool)
    → ((v w : Video) → p v ≡ true → f v ≡ ok w → IsValid db w)
    → IsOwned db
    → (update_videos p f db.videos >>= λ vs.
        (if hit then ok (with_videos db vs) else err video_not_found))
      ≡ ok after
    → IsOwned after
rewritten-IsOwned db after p f hit k h e =
    let (vs, u, m) =
      >>=-eq-ok (update_videos p f db.videos)
        (λ vs. (if hit then ok (with_videos db vs) else err video_not_found)) e in
    let is : with_videos db vs ≡ after = only hit db vs after m in
    subst IsOwned is
      (with_videos-IsOwned db vs (update_videos-All (IsValid db) p f db.videos vs k h.videos u))
  where
    only :
        (hit : Bool) (db : Db) (vs : List Video) (after : Db)
        → (if hit then ok (with_videos db vs) else err video_not_found) ≡ ok after
        → with_videos db vs ≡ after
    only true db vs after m = ground (arith, m)
    only false db vs after m = absurd cc

pub move_video-IsOwned :
    (u id queue_id : ℕ) (db after : Db)
    → IsOwned db
    → move_video u id queue_id db ≡ ok after
    → IsOwned after
unfolding move_video
move_video-IsOwned u id q db after h e =
    rewritten-IsOwned db after (λ v. is_video db u id v && anyb (is_of u q) db.queues)
      (λ v.
        write_video db (keeps_priority false v (record v { video_queue_id = q }))
          constraint_violated (record v { video_queue_id = q }))
      (anyb (λ v. is_video db u id v && anyb (is_of u q) db.queues) db.videos)
      (λ v w _ k.
        write_video-IsValid db (keeps_priority false v (record v { video_queue_id = q }))
          constraint_violated (record v { video_queue_id = q }) w k)
      h e

pub update_video-IsOwned :
    (u id amount start_seconds : ℕ) (end_seconds : Option ℕ) (db after : Db)
    → IsOwned db
    → update_video u id amount start_seconds end_seconds db ≡ ok after
    → IsOwned after
unfolding update_video
update_video-IsOwned u id a s t db after h e =
    rewritten-IsOwned db after (is_video db u id)
      (λ v.
        write_video db (keeps_priority false v (edited a s t v)) invalid_video_timing
          (edited a s t v))
      (anyb (is_video db u id) db.videos)
      (λ v w _ k.
        write_video-IsValid db (keeps_priority false v (edited a s t v)) invalid_video_timing
          (edited a s t v) w k)
      h e

All-map-if :
    (P : Video → Type 0) (p : Video → Bool) (f : Video → Video) (vs : List Video)
    → ((v : Video) → P v → P (f v))
    → All P vs
    → All P (map (λ v. if p v then f v else v) vs)
All-map-if P p f [] k h = tt
All-map-if P p f (v ∷ vs) k h = (one (p v), All-map-if P p f vs k h.1)
  where
    one : (b : Bool) → P (if b then f v else v)
    one true = k v h.0
    one false = h.0

pub update_status-IsOwned :
    (u id : ℕ) (watched_at bookmarked_at : Option (Option ℕ)) (db after : Db)
    → IsOwned db
    → update_status u id watched_at bookmarked_at db ≡ ok after
    → IsOwned after
unfolding update_status owner
update_status-IsOwned u id w b db after h e =
    elim (Bool-cases (anyb (is_video db u id) db.videos)) [
      | inr miss ↦ absurd (ground (arith, miss, e))
      | inl hit ↦
          let vs : List Video =
            map
              (λ v.
                if is_video db u id v
                then record v {
                  watched_at = given w v.watched_at;
                  bookmarked_at = given b v.bookmarked_at;
                }
                else v)
              db.videos in
          let is : with_videos db vs ≡ after = ground (arith, hit, e) in
          subst IsOwned is (
            with_videos-IsOwned db vs (
              All-map-if (IsValid db) (is_video db u id)
                (λ v. record v {
                  watched_at = given w v.watched_at;
                  bookmarked_at = given b v.bookmarked_at;
                })
                db.videos
                (λ v x. record { queue = x.queue; priority = x.priority; timing = x.timing })
                h.videos))
    ]

insert_video-IsOwned :
    (now : ℕ) (db : Db) (v : Video)
    → All (IsValid db) (v ∷ db.videos)
    → IsOwned (insert_video now db v)
insert_video-IsOwned now db v a = record {
  videos =
      All-mono (IsValid db) (IsValid (insert_video now db v))
        (λ w x. record { queue = x.queue; priority = x.priority; timing = x.timing })
        (v ∷ db.videos) a;
}

pub add_manual_video-IsOwned :
    (new_id now u : ℕ) (url : Text) (youtube_id : Option Text) (amount start_seconds : ℕ)
    (end_seconds queue_id : Option ℕ) (db after : Db)
    → IsOwned db
    → add_manual_video new_id now u url youtube_id amount start_seconds end_seconds queue_id db
      ≡ ok after
    → IsOwned after
unfolding add_manual_video
add_manual_video-IsOwned n now u url y a s t q db after h e =
    let (provider, _, e1) = >>=-eq-ok (or_fail y invalid_youtube_url) _ e in
    let (queue, _, e2) =
      >>=-eq-ok (or_fail (head? (filterb (is_chosen u q) db.queues)) video_queue_not_found) _ e1 in
    let (v, w, e3) =
      >>=-eq-ok
        (write_video db false constraint_violated
          (new_video n now u url provider a s t queue.video_queue_id))
        (λ v. ok (insert_video now db v)) e2 in
    let is : insert_video now db v ≡ after = ground (arith, e3) in
    subst IsOwned is (
      insert_video-IsOwned now db v (
        write_video-IsValid db false constraint_violated
            (new_video n now u url provider a s t queue.video_queue_id) v w,
        h.videos,
      ))
