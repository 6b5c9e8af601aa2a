-- ===== src/VideoQueue/Users/Tests.antt =====
-- Examples of users (apps/web/src/server/sensors/db/store.ts).
use streambrew.Base.{
  ℕ, ◌+◌, ◌*◌, ◌≤◌, ◌≡◌, refl, ◌⊎◌, true, false, List, [], ◌∷◌, Text, codes, none, some, arith,
  length, ok, err,
}
use streambrew.VideoQueue.Tables.{Db}
use streambrew.VideoQueue.Shared.{users_with}
use streambrew.VideoQueue.Users.{
  slug_conflict, Draw, get_user_id, create_user, create_with, get_or_create_user_id, UserCall,
  sign_in, rename, publish, user_run,
}
use streambrew.VideoQueue.Users.Created.{HasOwners, IsFresh, created, get_or_create_user_id_ends}
use streambrew.VideoQueue.Users.Valid.{IsValid}
use streambrew.VideoQueue.Users.Always.{calls_keep_users}

abbrev empty : Db
empty = record { users = []; queues = []; donations = []; priorities = []; videos = []; jobs = [] }

abbrev draw : ℕ → Text → Draw
draw n slug = record {
  slug = slug;
  user_id = n;
  queue_id = n;
  priority_0 = 4 * n;
  priority_1 = 4 * n + 1;
  priority_2 = 4 * n + 2;
  priority_3 = 4 * n + 3;
}

abbrev one : Db
one = created (codes "a") (draw 1 (codes "ann")) empty

-- A slug that is taken is drawn again.
second_draw :
    get_or_create_user_id (codes "b") (draw 2 (codes "ann") ∷ draw 3 (codes "bob") ∷ []) one
    ≡ some (ok (3, created (codes "b") (draw 3 (codes "bob")) one))
unfolding get_or_create_user_id get_user_id create_with create_user
second_draw = refl

taken_slug : create_user (codes "b") (draw 2 (codes "ann")) one ≡ err slug_conflict
unfolding create_user
taken_slug = refl

fresh : (n : ℕ) (slug : Text) → 2 ≤ n → IsFresh one (draw n slug)
fresh n slug h = record {
  user = ground (arith, h);
  queue = ground (arith, h);
  free_0 = ground (arith, h);
  free_1 = ground (arith, h);
  free_2 = ground (arith, h);
  free_3 = ground (arith, h);
  ne_01 = λ e. omega (arith, e);
  ne_02 = λ e. omega (arith, e);
  ne_03 = λ e. omega (arith, e);
  ne_12 = λ e. omega (arith, e);
  ne_13 = λ e. omega (arith, e);
  ne_23 = λ e. omega (arith, e);
}

one-HasOwners : HasOwners one
one-HasOwners = record { queues = (refl, tt); priorities = (refl, (refl, (refl, (refl, tt)))) }

get_or_create_user_id_ends_example :
    ((u : ℕ) × (get_user_id (codes "b") one ≡ some u)
      × (get_or_create_user_id (codes "b") (draw 2 (codes "ann") ∷ draw 3 (codes "bob") ∷ []) one
          ≡ some (ok (u, one))))
    ⊎ ((get_user_id (codes "b") one ≡ none)
        × (get_or_create_user_id (codes "b") (draw 2 (codes "ann") ∷ draw 3 (codes "bob") ∷ []) one
            ≡ some (ok (3, created (codes "b") (draw 3 (codes "bob")) one))))
get_or_create_user_id_ends_example =
    get_or_create_user_id_ends (codes "b") one (draw 2 (codes "ann") ∷ draw 3 (codes "bob") ∷ [])
      (draw 3 (codes "bob")) one-HasOwners
      (fresh 2 (codes "ann") (omega arith), (fresh 3 (codes "bob") (omega arith), tt)) refl

one-IsValid : IsValid one
one-IsValid = record {
  ids = (refl, tt);
  slugs = (refl, tt);
  owners = one-HasOwners;
  equipped = ((refl, refl), tt);
}

abbrev calls : List UserCall
calls =
    sign_in (codes "b") (draw 2 (codes "ann") ∷ draw 3 (codes "bob") ∷ [])
    ∷ rename 3 (codes "ann")
    ∷ rename 1 (codes "anna")
    ∷ publish 1 (record { enabled = false; show_amounts = true; show_watched_videos = true })
    ∷ []

calls_keep_users_example :
    IsValid (user_run one calls)
    × ((slug : Text) → length (users_with slug (user_run one calls).users) ≤ 1)
calls_keep_users_example = calls_keep_users one calls one-IsValid (
  (fresh 2 (codes "ann") (omega arith), (fresh 3 (codes "bob") (omega arith), tt)),
  (tt, (tt, (tt, tt))),
)
