-- ===== src/VideoQueue/Requests/Queues.antt =====
-- The calls on queues and metadata keep every video in a queue of its owner
-- (apps/web/src/server/video-queue/postgres.ts).
use streambrew.Base.{
  label_check, err, ◌>>◌, ℕ, ◌≡◌, refl, subst, ap, Bool, true, false, not, ◌&&◌, ◌||◌, List, [],
  ◌∷◌, ◌++◌, map, Text, Option, arith, anyb, All-mono, ◌==◌, if◌then◌else◌, Result, ok, err, guard,
  or_fail, >>=-eq-ok,
}
use streambrew.VideoQueue.Queues.{
  Queue, VideoQueueError, video_queue_not_found, video_queue_name_taken, constraint_violated,
  trimmed, valid_label, is_of, is_named, find, create_queue, without_default, labelled, relabel,
  update_queue,
}
use streambrew.VideoQueue.Tables.{Db, owner, has_queue}
use streambrew.VideoQueue.Videos.{retry_metadata}
use streambrew.VideoQueue.Owned.{IsValid}
use streambrew.VideoQueue.Requests.{committed, with_queues}
use streambrew.VideoQueue.Requests.Rows.{IsOwned}

-- Every queue of a user that there was is there.
abbrev Covers : List Queue → List Queue → Type 0
Covers qs after = (o : Option ℕ) (id : ℕ) → has_queue qs o id ≡ true → has_queue after o id ≡ true

queues-IsOwned :
    (db : Db) (qs : List Queue)
    → Covers db.queues qs
    → IsOwned db
    → IsOwned (record db { queues = qs })
queues-IsOwned db qs covers h = record {
  videos =
      All-mono (IsValid db) (IsValid (record db { queues = qs }))
        (λ v x. record {
          queue = covers (owner db.donations v) v.video_queue_id x.queue;
          priority = x.priority;
          timing = x.timing;
        })
        db.videos h.videos;
}

with_queues-IsOwned :
    (db : Db) (r : Result VideoQueueError (Queue × List Queue))
    → ((x : Queue × List Queue) → r ≡ ok x → Covers db.queues x.1)
    → IsOwned db
    → IsOwned (committed db (with_queues db r))
with_queues-IsOwned db (ok (q, qs)) covers h = queues-IsOwned db qs (covers (q, qs) refl) h
with_queues-IsOwned db (err e) covers h = h

append-Covers : (qs : List Queue) (q : Queue) → Covers qs (qs ++ q ∷ [])
append-Covers [] q o id h = absurd (cc)
append-Covers (r ∷ qs) q o id h = ground (arith, append-Covers qs q o id)

-- A result that is not the error of a test.
passed {ℓ} :
    {A : Type ℓ} (b : Bool) (reason : VideoQueueError) (r : Result VideoQueueError A) (x : A)
    → (if b then err reason else r) ≡ ok x
    → r ≡ ok x
passed true reason r x h = absurd cc
passed false reason r x h = h

create_queue-Covers :
    (new_id u : ℕ) (label : Text) (qs : List Queue) (x : Queue × List Queue)
    → create_queue new_id u label qs ≡ ok x
    → Covers qs x.1
unfolding create_queue
create_queue-Covers new_id u label qs x h =
    let h1 = passed (not (label_check label)) constraint_violated _ x h in
    let h2 = passed (anyb (is_named u label) qs) video_queue_name_taken _ x h1 in
    let h3 = passed (anyb (λ q. q.video_queue_id == new_id) qs) constraint_violated _ x h2 in
    let new : Queue = record {
      video_queue_id = new_id;
      user_id = u;
      label = label;
      is_default = false;
    } in
    let same : (record new { label = trimmed label }, qs ++ new ∷ []) ≡ x = cc h3 in
    subst (λ (x : Queue × List Queue). Covers qs x.1) same (append-Covers qs new)

-- An update that keeps the number and the user of every queue.
module _ (f : Queue → Queue) (id-keep : (q : Queue) → (f q).video_queue_id ≡ q.video_queue_id)
    (user-keep : (q : Queue) → (f q).user_id ≡ q.user_id) where
  map-Covers : (qs : List Queue) → Covers qs (map f qs)
  map-Covers [] o id h = h
  map-Covers (q ∷ qs) o id h = rw (id-keep q, user-keep q) (ground (arith, h, map-Covers qs o id))

relabel-Covers :
    (u id : ℕ) (label : Text) (is_default : Bool) (qs after : List Queue)
    → relabel u id label is_default qs ≡ ok after
    → Covers qs after
unfolding relabel
relabel-Covers u id label is_default qs after h =
    let h1 =
      passed (not (label_check label) && anyb (is_of u id) qs) constraint_violated _ after h in
    let h2 =
      passed (anyb (λ q. is_named u label q && not (q.video_queue_id == id)) qs)
        video_queue_name_taken _ after h1 in
    let h3 =
      passed
        (is_default
          && anyb (λ q. (q.user_id == u && q.is_default) && not (q.video_queue_id == id)) qs)
        constraint_violated _ after h2 in
    let f = λ (q : Queue). if is_of u id q then labelled label is_default q else q in
    let same : map f qs ≡ after = cc h3 in
    subst (Covers qs) same (map-Covers f (λ q. ground arith) (λ q. ground arith) qs)

update_queue-Covers :
    (u id : ℕ) (label : Text) (is_default : Bool) (qs : List Queue) (x : Queue × List Queue)
    → update_queue u id label is_default qs ≡ ok x
    → Covers qs x.1
unfolding update_queue
update_queue-Covers u id label is_default qs x h =
    let (queue, _, h1) = >>=-eq-ok (or_fail (find (is_of u id) qs) video_queue_not_found) _ h in
    let (_, _, h0) = >>=-eq-ok (guard (valid_label queue.label) constraint_violated) _ h1 in
    let (_, _, h2) =
      >>=-eq-ok
        (guard (not (anyb (λ q. is_named u label q && not (q.video_queue_id == id)) qs))
          video_queue_name_taken)
        _ h0 in
    let (after, e, h3) =
      >>=-eq-ok
        (relabel u id label (is_default || queue.is_default)
          (if is_default then map (without_default u) qs else qs))
        (λ after.
          guard (valid_label label) constraint_violated
          >> ok (labelled (trimmed label) (is_default || queue.is_default) queue, after))
        h2 in
    let (_, _, h4) = >>=-eq-ok (guard (valid_label label) constraint_violated) _ h3 in
    let pair : (labelled (trimmed label) (is_default || queue.is_default) queue, after) ≡ x =
      cc h4 in
    let same : after ≡ x.1 = ap (λ (y : Queue × List Queue). y.1) pair in
    subst (Covers qs) same (λ o i k.
      relabel-Covers u id label (is_default || queue.is_default)
        (if is_default then map (without_default u) qs else qs) after e o i
        (cleared is_default o i k))
  where
    cleared : (b : Bool) → Covers qs (if b then map (without_default u) qs else qs)
    cleared true = map-Covers (without_default u) (λ q. ground arith) (λ q. ground arith) qs
    cleared false = λ o i k. k

pub new_queue-IsOwned :
    (new_id u : ℕ) (label : Text) (db : Db)
    → IsOwned db
    → IsOwned (committed db (with_queues db (create_queue new_id u label db.queues)))
new_queue-IsOwned new_id u label db =
    with_queues-IsOwned db (create_queue new_id u label db.queues)
      (create_queue-Covers new_id u label db.queues)

pub change_queue-IsOwned :
    (u id : ℕ) (label : Text) (is_default : Bool) (db : Db)
    → IsOwned db
    → IsOwned (committed db (with_queues db (update_queue u id label is_default db.queues)))
change_queue-IsOwned u id label is_default db =
    with_queues-IsOwned db (update_queue u id label is_default db.queues)
      (update_queue-Covers u id label is_default db.queues)

pub retry_metadata-IsOwned :
    (now u id : ℕ) (db : Db) → IsOwned db → IsOwned (retry_metadata now u id db).1
unfolding retry_metadata
retry_metadata-IsOwned now u id db h = record {
  videos =
      All-mono (IsValid db) (IsValid (retry_metadata now u id db).1)
        (λ v x. record { queue = x.queue; priority = x.priority; timing = x.timing }) db.videos
        h.videos;
}
