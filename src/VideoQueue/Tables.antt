-- ===== src/VideoQueue/Tables.antt =====
-- The tables of db/schema.sql that the videos of a queue stand in, and the trigger
-- set_video_priority_id on them. Amounts of money are in hundredths; times are numbers.
pub mod Best
use streambrew.Base.{
  ℕ, ◌-◌, ◌*◌, Bool, true, false, not, ◌&&◌, ◌||◌, List, [], ◌∷◌, Text, Option, none, some, anyb,
  filterb, ◌==◌, ltb, leb, if◌then◌else◌, Result, ok, err, ◌>>=◌, ◌>>◌, guard,
}
use streambrew.VideoQueue.Queues.{Queue, VideoQueueError, constraint_violated}

-- `video_check`: a video has a donation or a user, never both.
pub record Video : Type 0 where
  pub video_id : ℕ
  pub donation_id : Option ℕ
  pub user_id : Option ℕ
  pub added_at : Option ℕ
  pub url : Text
  pub provider_video_id : Text
  pub queue_amount : Option ℕ
  pub start_seconds : ℕ
  pub end_seconds : Option ℕ
  pub duration_seconds : Option ℕ
  pub watched_at : Option ℕ
  pub bookmarked_at : Option ℕ
  pub video_priority_id : Option ℕ
  pub title : Option Text
  pub video_queue_id : ℕ

-- The amount of a donation is in its own asset, and is kept as it is written.
pub record Donation : Type 0 where
  pub donation_id : ℕ
  pub source : Text
  pub user_id : ℕ
  pub author : Option Text
  pub message : Option Text
  pub amount : Text
  pub currency : Text
  pub occurred_at : ℕ
  pub videos_parsed_at : Option ℕ

pub record Priority : Type 0 where
  pub video_priority_id : ℕ
  pub user_id : ℕ
  pub label : Text
  pub min_price_per_minute : ℕ
  pub is_default : Bool

pub record MetadataJob : Type 0 where
  pub video_id : ℕ
  pub available_at : ℕ
  pub lease_expires_at : Option ℕ
  pub completed_at : Option ℕ
  pub last_attempt_at : Option ℕ
  pub last_error_code : Option Text

pub data QueueCurrency : Type 0 where
  rub usd eur : QueueCurrency

pub record User : Type 0 where
  pub user_id : ℕ
  pub auth_user_id : Text
  pub slug : Text
  pub queue_currency : QueueCurrency
  pub public_queue_enabled : Bool
  pub public_queue_show_amounts : Bool
  pub public_queue_show_watched : Bool

pub record Db : Type 0 where
  pub users : List User
  pub queues : List Queue
  pub donations : List Donation
  pub priorities : List Priority
  pub videos : List Video
  pub jobs : List MetadataJob

abbrev pub option_eq : Option ℕ → Option ℕ → Bool
option_eq none none = true
option_eq (some a) (some b) = a == b
option_eq _ _ = false

abbrev pub donor : Option ℕ → List Donation → Option ℕ
donor none ds = none
donor (some id) [] = none
donor (some id) (d ∷ ds) = if d.donation_id == id then some d.user_id else donor (some id) ds

-- coalesce(video.user_id, donation.user_id)
abbrev pub owner_of : Option ℕ → Option ℕ → Option ℕ
owner_of none donated = donated
owner_of (some u) donated = some u

unfoldable pub owner : List Donation → Video → Option ℕ
owner ds v = owner_of v.user_id (donor v.donation_id ds)

-- `ownershipPredicate`
unfoldable pub owns_video : List Donation → ℕ → Video → Bool
owns_video ds u v =
    option_eq v.user_id (some u)
    || anyb (λ d. option_eq v.donation_id (some d.donation_id) && d.user_id == u) ds

abbrev pub has_queue : List Queue → Option ℕ → ℕ → Bool
has_queue qs o id = anyb (λ q. q.video_queue_id == id && option_eq (some q.user_id) o) qs

abbrev pub has_priority : List Priority → Option ℕ → Option ℕ → Bool
has_priority ps o none = true
has_priority ps o (some id) =
    anyb (λ p. p.video_priority_id == id && option_eq (some p.user_id) o) ps

-- min_price_per_minute <= queue_amount * 60 / (end_seconds - start_seconds), multiplied out. For an
-- end before the start the quotient is negative, or zero where the amount is.
unfoldable pub meets : ℕ → ℕ → ℕ → ℕ → Bool
meets threshold amount start_seconds end_seconds =
    if ltb start_seconds end_seconds
    then leb (threshold * (end_seconds - start_seconds)) (amount * 60)
    else threshold == 0 && amount == 0

-- ORDER BY min_price_per_minute DESC, video_priority_id ASC
abbrev pub precedes : Priority → Priority → Bool
precedes p q =
    ltb q.min_price_per_minute p.min_price_per_minute
    || (p.min_price_per_minute == q.min_price_per_minute
        && ltb p.video_priority_id q.video_priority_id)

abbrev pub preferred : Priority → Option Priority → Priority
preferred p none = p
preferred p (some q) = if precedes q p then q else p

-- … LIMIT 1
unfoldable pub best : List Priority → Option Priority
best [] = none
best (p ∷ ps) = some (preferred p (best ps))

abbrev pub assigned : Option Priority → Video → Result VideoQueueError Video
assigned none v = err constraint_violated
assigned (some p) v = ok (record v { video_priority_id = some p.video_priority_id })

unfoldable pub choose : List Priority → Option ℕ → ℕ → ℕ → Video → Result VideoQueueError Video
choose ps o amount end_seconds v =
    if v.start_seconds == end_seconds
    then err constraint_violated
    else assigned
        (best (
          filterb
            (λ p.
              option_eq (some p.user_id) o
              && meets p.min_price_per_minute amount v.start_seconds end_seconds)
            ps))
        v

abbrev pub unassigned : Video → Video
unassigned v = record v { video_priority_id = none }

abbrev pub is_some : Option ℕ → Bool
is_some none = false
is_some (some _) = true

-- NEW keeps the priority of OLD.
unfoldable pub keeps_priority : Bool → Video → Video → Bool
keeps_priority retain old new =
    (option_eq new.queue_amount old.queue_amount || retain)
    && (new.start_seconds == old.start_seconds
        && (option_eq new.end_seconds old.end_seconds
            && (option_eq new.donation_id old.donation_id
                && (option_eq new.user_id old.user_id
                    && (option_eq new.video_priority_id old.video_priority_id
                        && is_some old.video_priority_id)))))

-- duration_seconds IS NOT NULL AND start_seconds >= duration_seconds
abbrev pub starts_late : Option ℕ → ℕ → Bool
starts_late none start_seconds = false
starts_late (some duration) start_seconds = leb duration start_seconds

abbrev pub priced :
    List Priority
    → Option ℕ
    → Bool
    → Option ℕ
    → Option ℕ
    → Bool
    → Video
    → Result VideoQueueError Video
priced ps o late none end_seconds keeps v = ok (unassigned v)
priced ps o late (some amount) none keeps v = ok (unassigned v)
priced ps o late (some amount) (some end_seconds) keeps v =
    if late then ok (unassigned v) else if keeps then ok v else choose ps o amount end_seconds v

-- The trigger, with whether the row that is written keeps the priority of the one before; every
-- operation gives the row a queue.
unfoldable pub set_video_priority_id : Db → Bool → Video → Result VideoQueueError Video
set_video_priority_id db keeps v =
    guard (has_queue db.queues (owner db.donations v) v.video_queue_id) constraint_violated
    >> (guard (has_priority db.priorities (owner db.donations v) v.video_priority_id)
          constraint_violated
        >> priced db.priorities (owner db.donations v)
            (starts_late v.duration_seconds v.start_seconds) v.queue_amount v.end_seconds keeps v)
