-- ===== src/VideoQueue/Users.antt =====
-- The rows of "user", and what a new user begins with (apps/web/src/server/sensors/db/store.ts).
pub mod Created
pub mod Valid
pub mod Always
mod Tests
use streambrew.Base.{
  ℕ, Bool, true, false, not, ◌&&◌, ◌||◌, List, [], ◌∷◌, ◌++◌, map, Text, codes, text_eq, Option,
  none, some, ◌==◌, if◌then◌else◌, filterb, head?, anyb, Result, err, ok, ◌>>=◌,
}
use streambrew.VideoQueue.Queues.{Queue}
use streambrew.VideoQueue.Tables.{Priority, rub, User, Db}

-- The violation of user_slug_key, which the loop catches, or another error.
pub data UserError : Type 0 where
  slug_conflict other_error : UserError

-- What a round of the loop draws: its slug, which is the preferred one at first and a random one
-- after, and the numbers of the tables' sequences.
pub record Draw : Type 0 where
  pub slug : Text
  pub user_id : ℕ
  pub queue_id : ℕ
  pub priority_0 : ℕ
  pub priority_1 : ℕ
  pub priority_2 : ℕ
  pub priority_3 : ℕ

abbrev pub has_auth : Text → User → Bool
has_auth auth w = text_eq w.auth_user_id auth

unfoldable pub get_user_id : Text → Db → Option ℕ
get_user_id auth db = elim (head? (filterb (has_auth auth) db.users)) [
  | some w ↦ some w.user_id
  | none ↦ none
]

-- The row with the defaults of its columns.
abbrev pub new_user : Text → Draw → User
new_user auth draw = record {
  user_id = draw.user_id;
  auth_user_id = auth;
  slug = draw.slug;
  queue_currency = rub;
  public_queue_enabled = true;
  public_queue_show_amounts = true;
  public_queue_show_watched = true;
}

abbrev pub add_user : Text → Draw → List User → Option User → Result UserError (ℕ × List User)
add_user auth draw us (some w) = ok (w.user_id, us)
add_user auth draw us none =
    if anyb (λ w. text_eq w.slug draw.slug) us
    then err slug_conflict
    else if anyb (λ w. w.user_id == draw.user_id) us
    then err other_error
    else ok (draw.user_id, us ++ new_user auth draw ∷ [])

-- INSERT … ON CONFLICT (auth_user_id) DO UPDATE, which writes nothing new.
abbrev pub insert_user : Text → Draw → List User → Result UserError (ℕ × List User)
insert_user auth draw us = add_user auth draw us (head? (filterb (has_auth auth) us))

abbrev pub main_queue : ℕ → ℕ → Queue
main_queue id u = record {
  video_queue_id = id;
  user_id = u;
  label = codes "Main";
  is_default = true;
}

-- ON CONFLICT (user_id) WHERE is_default DO UPDATE, which writes nothing new.
abbrev pub insert_main_queue : ℕ → ℕ → List Queue → Result UserError (List Queue)
insert_main_queue id u qs =
    if anyb (λ q. q.user_id == u && q.is_default) qs
    then ok qs
    else if anyb (λ q. (q.user_id == u && text_eq q.label (codes "Main")) || q.video_queue_id == id)
        qs
    then err other_error
    else ok (qs ++ main_queue id u ∷ [])

abbrev pub new_priority : ℕ → ℕ → Text → ℕ → Bool → Priority
new_priority id u label threshold is_default = record {
  video_priority_id = id;
  user_id = u;
  label = label;
  min_price_per_minute = threshold;
  is_default = is_default;
}

-- The primary key, the label of the user, and the user's default.
abbrev pub conflicts : Priority → Priority → Bool
conflicts p q =
    q.video_priority_id == p.video_priority_id
    || (q.user_id == p.user_id && (text_eq q.label p.label || (p.is_default && q.is_default)))

-- ON CONFLICT DO NOTHING
abbrev pub insert_priority : List Priority → Priority → List Priority
insert_priority ps p = if anyb (conflicts p) ps then ps else ps ++ p ∷ []

abbrev pub insert_priorities : List Priority → List Priority → List Priority
insert_priorities ps [] = ps
insert_priorities ps (p ∷ news) = insert_priorities (insert_priority ps p) news

-- Amounts are in hundredths.
abbrev pub new_priorities : Draw → ℕ → List Priority
new_priorities draw u =
    new_priority draw.priority_0 u (codes "priority 0") 0 true
    ∷ new_priority draw.priority_1 u (codes "priority 1") 5_000 false
    ∷ new_priority draw.priority_2 u (codes "priority 2") 10_000 false
    ∷ new_priority draw.priority_3 u (codes "priority 3") 20_000 false
    ∷ []

-- The transaction of a round.
unfoldable pub create_user : Text → Draw → Db → Result UserError (ℕ × Db)
create_user auth draw db = insert_user auth draw db.users >>= λ (u, users).
    insert_main_queue draw.queue_id u db.queues >>= λ queues. ok (
      u,
      record db {
        users = users;
        queues = queues;
        priorities = insert_priorities db.priorities (new_priorities draw u);
      },
    )

-- The catch: a slug that is taken is drawn again.
abbrev pub is_settled : Result UserError (ℕ × Db) → Bool
is_settled (ok created) = true
is_settled (err slug_conflict) = false
is_settled (err other_error) = true

-- The loop, on the draws of its rounds; none while it goes on after them.
unfoldable pub create_with : Text → List Draw → Db → Option (Result UserError (ℕ × Db))
create_with auth [] db = none
create_with auth (draw ∷ draws) db =
    let later = create_with auth draws db in
    if is_settled (create_user auth draw db) then some (create_user auth draw db) else later

unfoldable pub get_or_create_user_id : Text → List Draw → Db → Option (Result UserError (ℕ × Db))
get_or_create_user_id auth draws db = elim (get_user_id auth db) [
  | some u ↦ some (ok (u, db))
  | none ↦ create_with auth draws db
]

abbrev pub is_user : ℕ → User → Bool
is_user u w = w.user_id == u

abbrev pub with_slug : ℕ → Text → User → User
with_slug u slug w = if is_user u w then record w { slug = slug } else w

-- Whether a row is written, and the table after it.
unfoldable pub set_slug : ℕ → Text → Db → Bool × Db
set_slug u slug db =
    if anyb (λ w. text_eq w.slug slug && not (is_user u w)) db.users
    then (false, db)
    else (anyb (is_user u) db.users, record db { users = map (with_slug u slug) db.users })

pub record PublicQueueSettings : Type 0 where
  pub enabled : Bool
  pub show_amounts : Bool
  pub show_watched_videos : Bool

abbrev pub with_settings : ℕ → PublicQueueSettings → User → User
with_settings u settings w =
    if is_user u w
    then record w {
      public_queue_enabled = settings.enabled;
      public_queue_show_amounts = settings.show_amounts;
      public_queue_show_watched = settings.show_watched_videos;
    }
    else w

-- The schema throws where no row is written.
unfoldable pub set_public_queue_settings :
    ℕ → PublicQueueSettings → Db → Option PublicQueueSettings × Db
set_public_queue_settings u settings db = (
  if anyb (is_user u) db.users then some settings else none,
  record db { users = map (with_settings u settings) db.users },
)

-- What the procedures do to the tables of the users; what throws rolls back.
pub data UserCall : Type 0 where
  sign_in : (auth : Text) (draws : List Draw) → UserCall
  rename : (u : ℕ) (slug : Text) → UserCall
  publish : (u : ℕ) (settings : PublicQueueSettings) → UserCall

abbrev pub signed_in : Db → Option (Result UserError (ℕ × Db)) → Db
signed_in db (some (ok (u, after))) = after
signed_in db _ = db

unfoldable pub user_step : Db → UserCall → Db
user_step db (sign_in auth draws) = signed_in db (get_or_create_user_id auth draws db)
user_step db (rename u slug) = (set_slug u slug db).1
user_step db (publish u settings) = (set_public_queue_settings u settings db).1

unfoldable pub user_run : Db → List UserCall → Db
user_run db [] = db
user_run db (c ∷ cs) = user_run (user_step db c) cs
