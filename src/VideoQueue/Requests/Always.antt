-- ===== src/VideoQueue/Requests/Always.antt =====
-- Every sequence of calls keeps each video in a queue and a priority of its owner
-- (apps/web/src/server/video-queue/postgres.ts).
use streambrew.Base.{
  ℕ, ◌≡◌, ◌∙◌, refl, subst, Bool, true, false, ◌&&◌, List, [], ◌∷◌, map, Text, Option, none, some,
  arith, All-mono, ◌==◌, if◌then◌else◌, Result, ok, err, ◌>>=◌, or_fail, >>=-eq-ok,
}
use streambrew.VideoQueue.Queues.{VideoQueueError, constraint_violated}
use streambrew.VideoQueue.Tables.{
  Video, Priority, QueueCurrency, Db, owner, has_priority, keeps_priority, owns_video,
}
use streambrew.VideoQueue.Videos.{
  write_video, update_videos, move_video, update_video, update_status, add_manual_video,
}
use streambrew.VideoQueue.Priorities.{
  convert_db, convert_priority, convert_amount, is_amount, repriced, is_priority, update_priority,
  set_queue_currency, conversion_factor_for_currency_change, currency_of, currency_eq,
}
use streambrew.VideoQueue.Owned.{IsValid, write_video-IsValid, update_videos-All}
use streambrew.VideoQueue.Requests.{
  Request, move, update, status, add, reprice, currency, new_queue, change_queue, retry,
  with_priorities, step, run,
}
use streambrew.VideoQueue.Requests.Queues.{
  new_queue-IsOwned, change_queue-IsOwned, retry_metadata-IsOwned,
}
use streambrew.VideoQueue.Requests.Rows.{
  IsOwned, committed-IsOwned, move_video-IsOwned, update_video-IsOwned, update_status-IsOwned,
  add_manual_video-IsOwned,
}

-- A change of priorities that leaves ids and owners alone.
record Keeps (g : Priority → Priority) : Type 0 where
  id : (p : Priority) → (g p).video_priority_id ≡ p.video_priority_id
  user : (p : Priority) → (g p).user_id ≡ p.user_id

has_priority-map :
    (g : Priority → Priority) (ps : List Priority) (o id : Option ℕ)
    → Keeps g
    → has_priority (map g ps) o id ≡ has_priority ps o id
has_priority-map g ps o none k = refl
has_priority-map g [] o (some id) k = refl
has_priority-map g (p ∷ ps) o (some id) k =
    let i = k.id p in
    let u = k.user p in let ih = has_priority-map g ps o (some id) k in rw (i, u, ih) refl

IsValid-map :
    (db : Db) (g : Priority → Priority) (v : Video)
    → Keeps g
    → IsValid db v
    → IsValid (record db { priorities = map g db.priorities }) v
IsValid-map db g v k x = record {
  queue = x.queue;
  priority =
      has_priority-map g db.priorities (owner db.donations v) v.video_priority_id k ∙ x.priority;
  timing = x.timing;
}

update_priority-IsOwned :
    (u id : ℕ) (label : Text) (threshold : ℕ) (db after : Db)
    → IsOwned db
    → with_priorities db (update_priority u id label threshold db.priorities) ≡ ok after
    → IsOwned after
unfolding update_priority
update_priority-IsOwned u id l t db after h e =
    let g : Priority → Priority = λ q. if is_priority u id q then repriced l t q else q in
    let is : record db { priorities = map g db.priorities } ≡ after = ground (arith, e) in
    subst IsOwned is (record {
      videos =
          All-mono (IsValid db) (IsValid (record db { priorities = map g db.priorities }))
            (λ v x.
              IsValid-map db g v (record { id = λ p. ground arith; user = λ p. ground arith }) x)
            db.videos h.videos;
    })

convert_db-IsOwned :
    (u : ℕ) (to : QueueCurrency) (numerator denominator : ℕ) (db after : Db)
    → IsOwned db
    → convert_db u to numerator denominator db ≡ ok after
    → IsOwned after
unfolding convert_db convert_priority
convert_db-IsOwned u to n d db after h e =
    let g : Priority → Priority = λ p. if p.user_id == u then convert_priority n d p else p in
    let priced : Db = record db { priorities = map g db.priorities } in
    let (vs, w, e1) =
      >>=-eq-ok
        (update_videos (λ v. is_amount v.queue_amount && owns_video db.donations u v)
          (λ v.
            write_video priced (keeps_priority true v (convert_amount n d v)) constraint_violated
              (convert_amount n d v))
          db.videos)
        _ e in
    let is : record priced {
      videos = vs;
      users = map (λ w. if w.user_id == u then record w { queue_currency = to } else w) db.users;
    }
        ≡ after =
      ground (arith, e1) in
    subst IsOwned is (record {
      videos =
          All-mono (IsValid priced)
            (IsValid (record priced {
              videos = vs;
              users =
                  map (λ w. if w.user_id == u then record w { queue_currency = to } else w)
                    db.users;
            }))
            (λ v x. record { queue = x.queue; priority = x.priority; timing = x.timing }) vs
            (update_videos-All (IsValid priced)
              (λ v. is_amount v.queue_amount && owns_video db.donations u v)
              (λ v.
                write_video priced (keeps_priority true v (convert_amount n d v))
                  constraint_violated (convert_amount n d v))
              db.videos vs
              (λ v x _ k.
                write_video-IsValid priced (keeps_priority true v (convert_amount n d v))
                  constraint_violated (convert_amount n d v) x k)
              (All-mono (IsValid db) (IsValid priced)
                (λ v x.
                  IsValid-map db g v (record { id = λ p. ground arith; user = λ p. ground arith })
                    x)
                db.videos h.videos)
              w);
    })

either-IsOwned :
    (same : Bool) (from to : QueueCurrency) (r : Result VideoQueueError Db) (db : Db)
    (x : QueueCurrency × Db)
    → IsOwned db
    → ((a : Db) → r ≡ ok a → IsOwned a)
    → (if same then ok (from, db) else (r >>= λ a. ok (to, a))) ≡ ok x
    → IsOwned x.1
either-IsOwned true from to r db x h k e =
    subst (λ (y : QueueCurrency × Db). IsOwned y.1) {x = (from, db)} {y = x} (ground (arith, e)) h
either-IsOwned false from to (err y) db x h k e = absurd cc
either-IsOwned false from to (ok a) db x h k e =
    subst (λ (y : QueueCurrency × Db). IsOwned y.1) {x = (to, a)} {y = x} (ground (arith, e))
      (k a refl)

set_queue_currency-IsOwned :
    (u : ℕ) (to : QueueCurrency) (rate : ℕ) (db after : Db)
    → IsOwned db
    → (set_queue_currency u to rate db >>= λ x. ok x.1) ≡ ok after
    → IsOwned after
unfolding set_queue_currency
set_queue_currency-IsOwned u to rate db after h e =
    let (x, f, m) = >>=-eq-ok (set_queue_currency u to rate db) (λ x. ok x.1) e in
    let is : x.1 ≡ after = ground (arith, m) in
    subst IsOwned is (changed (currency_of u db.users) x f)
  where
    changed :
        (previous : Option QueueCurrency) (x : QueueCurrency × Db)
        → (or_fail previous constraint_violated >>= λ from.
            if currency_eq from to
            then ok (from, db)
            else (let (numerator, denominator) =
                  conversion_factor_for_currency_change from to rate in
                convert_db u to numerator denominator db >>= λ after. ok (to, after)))
          ≡ ok x
        → IsOwned x.1
    changed none x f = absurd cc
    changed (some from) x f =
        either-IsOwned (currency_eq from to) from to
          (convert_db u to (conversion_factor_for_currency_change from to rate).0
            (conversion_factor_for_currency_change from to rate).1 db)
          db x h
          (λ a.
            convert_db-IsOwned u to (conversion_factor_for_currency_change from to rate).0
              (conversion_factor_for_currency_change from to rate).1 db a h)
          f

step-IsOwned : (db : Db) (r : Request) → IsOwned db → IsOwned (step db r)
unfolding step
step-IsOwned db (move u id q) h =
    committed-IsOwned db (move_video u id q db) h (λ after. move_video-IsOwned u id q db after h)
step-IsOwned db (update u id a s e) h =
    committed-IsOwned db (update_video u id a s e db) h
      (λ after. update_video-IsOwned u id a s e db after h)
step-IsOwned db (status u id w b) h =
    committed-IsOwned db (update_status u id w b db) h
      (λ after. update_status-IsOwned u id w b db after h)
step-IsOwned db (add n now u url y a s e q) h =
    committed-IsOwned db (add_manual_video n now u url y a s e q db) h
      (λ after. add_manual_video-IsOwned n now u url y a s e q db after h)
step-IsOwned db (reprice u id l t) h =
    committed-IsOwned db (with_priorities db (update_priority u id l t db.priorities)) h
      (λ after. update_priority-IsOwned u id l t db after h)
step-IsOwned db (currency u to rate) h =
    committed-IsOwned db (set_queue_currency u to rate db >>= λ x. ok x.1) h
      (λ after. set_queue_currency-IsOwned u to rate db after h)
step-IsOwned db (new_queue n u l) h = new_queue-IsOwned n u l db h
step-IsOwned db (change_queue u id l d) h = change_queue-IsOwned u id l d db h
step-IsOwned db (retry now u id) h = retry_metadata-IsOwned now u id db h

-- Users move, edit, mark and add videos, ask for their metadata again, add and change queues, and
-- change the price of a priority and the currency, in whatever order and with whatever input: where every video is in a queue and a priority of its
-- owner and ends after its start, every video still is.
pub calls_keep_owners : (db : Db) (rs : List Request) → IsOwned db → IsOwned (run db rs)
unfolding run
calls_keep_owners db [] h = h
calls_keep_owners db (r ∷ rs) h = calls_keep_owners (step db r) rs (step-IsOwned db r h)
