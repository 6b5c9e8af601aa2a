-- ===== src/VideoQueue/Owned.antt =====
-- Every video stays in a queue and a priority of its owner, whatever operations the users call
-- (apps/web/src/server/video-queue/postgres.ts).
use streambrew.Base.{
  ℕ, ◌≡◌, refl, sym, subst, ◌⊎◌, inl, inr, Bool, true, false, List, [], ◌∷◌, Option, none, some,
  arith, filterb, All, Option-cases, if◌then◌else◌, Result, ok, err, ◌>>=◌, ◌>>◌, guard,
}
use streambrew.VideoQueue.Queues.{VideoQueueError}
use streambrew.VideoQueue.Tables.{
  Video, Priority, Db, owner, has_queue, has_priority, best, choose, starts_late, priced,
  set_video_priority_id,
}
use streambrew.VideoQueue.Tables.Best.{best-owned, is_candidate, set_video_priority_id-ok}
use streambrew.VideoQueue.Videos.{is_timed, write_video, update_videos}

-- The queue and the priority of a video are its owner's, and its end is after its start.
pub record IsValid (db : Db) (v : Video) : Type 0 where
  pub queue : has_queue db.queues (owner db.donations v) v.video_queue_id ≡ true
  pub priority : has_priority db.priorities (owner db.donations v) v.video_priority_id ≡ true
  pub timing : is_timed v.start_seconds v.end_seconds ≡ true

-- The trigger changes the priority alone.
record Reassigned (ps : List Priority) (o : Option ℕ) (v w : Video) : Type 0 where
  priority : Option ℕ
  is : w ≡ record v { video_priority_id = priority }
  owned : has_priority ps o priority ≡ true

choose-Reassigned :
    (ps : List Priority) (o : Option ℕ) (amount end_seconds : ℕ) (v w : Video)
    → choose ps o amount end_seconds v ≡ ok w
    → Reassigned ps o v w
unfolding choose
choose-Reassigned ps o amount e v w h =
    elim (Option-cases (best (filterb (is_candidate o amount v.start_seconds e) ps))) [
      | inl n ↦ absurd (ground (arith, n, h))
      | inr (p, b) ↦ record {
        priority = some p.video_priority_id;
        is = ground (arith, b, h);
        owned = best-owned o amount v.start_seconds e ps p b;
      }
    ]

priced-Reassigned :
    (ps : List Priority) (o : Option ℕ) (late : Bool) (amount end_seconds : Option ℕ) (keeps : Bool)
    (v w : Video)
    → has_priority ps o v.video_priority_id ≡ true
    → priced ps o late amount end_seconds keeps v ≡ ok w
    → Reassigned ps o v w
priced-Reassigned ps o late none e keeps v w p h = record { priority = none; is = cc; owned = refl }
priced-Reassigned ps o late (some a) none keeps v w p h = record {
  priority = none;
  is = cc;
  owned = refl;
}
priced-Reassigned ps o true (some a) (some e) keeps v w p h = record {
  priority = none;
  is = cc;
  owned = refl;
}
priced-Reassigned ps o false (some a) (some e) true v w p h = record {
  priority = v.video_priority_id;
  is = cc;
  owned = p;
}
priced-Reassigned ps o false (some a) (some e) false v w p h = choose-Reassigned ps o a e v w h

timed :
    (set : Result VideoQueueError Video) (e : VideoQueueError) (w : Video)
    → (set >>= λ x. guard (is_timed x.start_seconds x.end_seconds) e >> ok x) ≡ ok w
    → (set ≡ ok w) × (is_timed w.start_seconds w.end_seconds ≡ true)
timed (err x) e w h = absurd cc
timed (ok x) e w h = ground (arith, h)

-- A row that is written is valid, and in the queue that it was given.
pub write_video-IsValid :
    (db : Db) (keeps : Bool) (e : VideoQueueError) (v w : Video)
    → write_video db keeps e v ≡ ok w
    → IsValid db w
unfolding write_video owner
write_video-IsValid db keeps e v w h =
    let (s, t) = timed (set_video_priority_id db keeps v) e w h in
    let (q, p, r) = set_video_priority_id-ok db keeps v w s in
    let x =
      priced-Reassigned db.priorities (owner db.donations v)
        (starts_late v.duration_seconds v.start_seconds) v.queue_amount v.end_seconds keeps v w p
        r in
    let as_queue : has_queue db.queues (owner db.donations w) w.video_queue_id ≡ true =
      subst (λ y. has_queue db.queues (owner db.donations y) y.video_queue_id ≡ true) (sym x.is)
        q in
    record {
      queue = as_queue;
      priority =
          subst (λ y. has_priority db.priorities (owner db.donations y) y.video_priority_id ≡ true)
            (sym x.is) x.owned;
      timing = t;
    }

update_videos-cons :
    (b : Bool) (here : Result VideoQueueError Video) (v : Video)
    (rest : Result VideoQueueError (List Video)) (ws : List Video)
    → ((if b then here else ok v) >>= λ w. rest >>= λ xs. ok (w ∷ xs)) ≡ ok ws
    → (w : Video) × (xs : List Video) × (ws ≡ w ∷ xs)
      × (rest ≡ ok xs)
      × (((b ≡ true) × (here ≡ ok w)) ⊎ (w ≡ v))
update_videos-cons true (err e) v rest ws h = absurd cc
update_videos-cons true (ok w) v (err e) ws h = absurd cc
update_videos-cons true (ok w) v (ok xs) ws h = (w, xs, cc, refl, inl (refl, refl))
update_videos-cons false here v (err e) ws h = absurd cc
update_videos-cons false here v (ok xs) ws h = (v, xs, cc, refl, inr refl)

-- What the rows hit come to have, and the others keep.
pub update_videos-All :
    (P : Video → Type 0) (p : Video → Bool) (f : Video → Result VideoQueueError Video)
    (vs ws : List Video)
    → ((v w : Video) → p v ≡ true → f v ≡ ok w → P w)
    → All P vs
    → update_videos p f vs ≡ ok ws
    → All P ws
unfolding update_videos
update_videos-All P p f [] ws k a h = subst (All P) {x = []} (ground arith) a
update_videos-All P p f (v ∷ vs) ws k a h =
    let (w, xs, e, r, c) = update_videos-cons (p v) (f v) v (update_videos p f vs) ws h in
    subst (All P) (sym e) (
      elim c [ inl (b, t) ↦ k v w b t | inr s ↦ subst P (sym s) a.0 ],
      update_videos-All P p f vs xs k a.1 r,
    )
