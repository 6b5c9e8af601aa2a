-- ===== src/VideoQueue/Queues/Default.antt =====
-- `updateQueue` keeps exactly one default queue of a user
-- (apps/web/src/server/video-queue/postgres.ts).
use streambrew.Base.{
  ℕ, ◌≡◌, refl, ◌⊎◌, inl, inr, ◌≢◌, ◌≤◌, Bool, true, false, not, ◌&&◌, ◌||◌, label_check, List, [],
  ◌∷◌, map, Text, none, some, arith, length, anyb, filterb, ◌==◌, Bool-cases, Option-cases,
  if◌then◌else◌, ok, err,
}
use streambrew.VideoQueue.Queues.{
  Queue, video_queue_not_found, video_queue_name_taken, is_of, find, is_named, without_default,
  constraint_violated, labelled, relabel, update_queue, valid_label, trimmed,
}

-- The primary key.
abbrev pub UniqueIds : List Queue → Type 0
UniqueIds [] = Unit
UniqueIds (q ∷ qs) = (anyb (λ e. e.video_queue_id == q.video_queue_id) qs ≡ false) × UniqueIds qs

abbrev pub defaults : ℕ → List Queue → List Queue
defaults u qs = filterb (λ q. q.user_id == u && q.is_default) qs

-- A row with the label of the user, other than `id`.
abbrev pub is_taken : ℕ → ℕ → Text → List Queue → Bool
is_taken u id label qs = anyb (λ q. is_named u label q && not (q.video_queue_id == id)) qs

no_hit :
    (u id : ℕ) (qs : List Queue)
    → anyb (λ e. e.video_queue_id == id) qs ≡ false
    → filterb (is_of u id) qs ≡ []
no_hit u id [] h = refl
no_hit u id (q ∷ qs) h = ground (arith, no_hit u id qs)

one_hit :
    (u id : ℕ) (qs : List Queue) (old : Queue)
    → UniqueIds qs
    → find (is_of u id) qs ≡ some old
    → filterb (is_of u id) qs ≡ old ∷ []
one_hit u id [] old h f = ground arith
one_hit u id (q ∷ qs) old h f = ground (arith, h.0, no_hit u id qs, one_hit u id qs old h.1)

defaults_cleared :
    (u id : ℕ) (label : Text) (qs : List Queue)
    → defaults u
        (map (λ q. if is_of u id q then labelled label true q else q) (map (without_default u) qs))
      ≡ map (labelled label true) (filterb (is_of u id) qs)
defaults_cleared u id label [] = refl
defaults_cleared u id label (q ∷ qs) = ground (arith, defaults_cleared u id label qs)

cleared_none :
    (u id : ℕ) (qs : List Queue)
    → anyb
        (λ q. (q.user_id == u && q.is_default) && not (q.video_queue_id == id))
        (map (without_default u) qs)
      ≡ false
cleared_none u id [] = refl
cleared_none u id (q ∷ qs) = ground (arith, cleared_none u id qs)

cleared_names :
    (u id : ℕ) (label : Text) (qs : List Queue)
    → is_taken u id label (map (without_default u) qs) ≡ is_taken u id label qs
cleared_names u id label [] = refl
cleared_names u id label (q ∷ qs) = ground (arith, cleared_names u id label qs)

no_hit_same :
    (u id : ℕ) (label : Text) (b : Bool) (qs : List Queue)
    → anyb (λ e. e.video_queue_id == id) qs ≡ false
    → map (λ q. if is_of u id q then labelled label b q else q) qs ≡ qs
no_hit_same u id label b [] h = refl
no_hit_same u id label b (q ∷ qs) h = ground (arith, no_hit_same u id label b qs)

abbrev pub ids : List Queue → List ℕ
ids qs = map (λ q. q.video_queue_id) qs

-- The row that is hit keeps its flag.
defaults_kept :
    (u id : ℕ) (label : Text) (qs : List Queue) (old : Queue)
    → UniqueIds qs
    → find (is_of u id) qs ≡ some old
    → ids (defaults u (map (λ q. if is_of u id q then labelled label old.is_default q else q) qs))
      ≡ ids (defaults u qs)
defaults_kept u id label [] old h f = refl
defaults_kept u id label (q ∷ qs) old h f = elim (Bool-cases (is_of u id q)) [
  | inl hit ↦
      let same = no_hit_same u id label old.is_default qs (ground (arith, h.0)) in
      rw (hit, same) (ground arith)
  | inr miss ↦ let ih = defaults_kept u id label qs old h.1 (ground arith) in rw miss (ground arith)
]

no_default :
    (u id : ℕ) (qs : List Queue)
    → length (defaults u qs) ≡ 0
    → anyb (λ q. (q.user_id == u && q.is_default) && not (q.video_queue_id == id)) qs ≡ false
no_default u id [] l = refl
no_default u id (q ∷ qs) l = ground (arith, no_default u id qs)

find-default :
    (u id : ℕ) (qs : List Queue) (old : Queue)
    → find (is_of u id) qs ≡ some old
    → old.is_default ≡ true
    → 1 ≤ length (defaults u qs)
find-default u id [] old f d = absurd cc
find-default u id (q ∷ qs) old f d = ground (arith, find-default u id qs old)

-- The one default is the row that is hit.
only_default :
    (u id : ℕ) (qs : List Queue) (old : Queue)
    → UniqueIds qs
    → find (is_of u id) qs ≡ some old
    → old.is_default ≡ true
    → length (defaults u qs) ≡ 1
    → anyb (λ q. (q.user_id == u && q.is_default) && not (q.video_queue_id == id)) qs ≡ false
only_default u id [] old h f d l = refl
only_default u id (q ∷ qs) old h f d l =
    ground
      (arith, h.0, h.1, no_default u id qs, find-default u id qs old, only_default u id qs old h.1)

others_cleared :
    (u v : ℕ) (qs : List Queue)
    → v ≢ u
    → filterb (λ q. q.user_id == v) (map (without_default u) qs) ≡ filterb (λ q. q.user_id == v) qs
others_cleared u v [] n = refl
others_cleared u v (q ∷ qs) n = ground (arith, n, others_cleared u v qs n)

others_set :
    (u v id : ℕ) (label : Text) (b : Bool) (qs : List Queue)
    → v ≢ u
    → filterb (λ q. q.user_id == v) (map (λ q. if is_of u id q then labelled label b q else q) qs)
      ≡ filterb (λ q. q.user_id == v) qs
others_set u v id label b [] n = refl
others_set u v id label b (q ∷ qs) n = ground (arith, n, others_set u v id label b qs n)

found_id :
    (u id : ℕ) (qs : List Queue) (old : Queue)
    → find (is_of u id) qs ≡ some old
    → old.video_queue_id ≡ id
found_id u id [] old f = absurd cc
found_id u id (q ∷ qs) old f = ground (arith, found_id u id qs old)

-- Under the CHECK on the label the two updates succeed.
relabel-found :
    (u id v : ℕ) (label : Text) (d : Bool) (qs : List Queue) (old : Queue)
    → UniqueIds qs
    → length (defaults u qs) ≡ 1
    → v ≢ u
    → find (is_of u id) qs ≡ some old
    → is_taken u id label qs ≡ false
    → label_check label ≡ true
    → (after : List Queue) × (relabel u id label
          (d || old.is_default)
          (if d then map (without_default u) qs else qs)
        ≡ ok after)
      × (ids (defaults u after) ≡ (if d then id ∷ [] else ids (defaults u qs)))
      × (filterb (λ q. q.user_id == v) after ≡ filterb (λ q. q.user_id == v) qs)
unfolding relabel
relabel-found u id v label true qs old h one n found free fits = (
  map (λ q. if is_of u id q then labelled label true q else q) (map (without_default u) qs),
  rw (fits, cleared_names u id label qs, free, cleared_none u id qs) refl,
  rw (defaults_cleared u id label qs, one_hit u id qs old h found, found_id u id qs old found) refl,
  rw (others_set u v id label true (map (without_default u) qs) n) (others_cleared u v qs n),
)
relabel-found u id v label false qs old h one n found free fits = elim (Bool-cases old.is_default) [
  | inl was ↦ (
    map (λ q. if is_of u id q then labelled label old.is_default q else q) qs,
    rw (fits, free, only_default u id qs old h found was one) (ground arith),
    defaults_kept u id label qs old h found,
    others_set u v id label old.is_default qs n,
  )
  | inr was ↦ (
    map (λ q. if is_of u id q then labelled label old.is_default q else q) qs,
    rw (fits, free) (ground (arith, was)),
    defaults_kept u id label qs old h found,
    others_set u v id label old.is_default qs n,
  )
]

-- The label is not stored, or does not parse when it comes back.
abbrev pub is_refused : Text → Bool
is_refused label = not (label_check label && valid_label label)

any_found :
    (p : Queue → Bool) (qs : List Queue) (old : Queue) → find p qs ≡ some old → anyb p qs ≡ true
any_found p [] old h = absurd cc
any_found p (q ∷ qs) old h = ground (arith, h, any_found p qs old)

any_cleared :
    (u id : ℕ) (d : Bool) (qs : List Queue)
    → anyb (is_of u id) (if d then map (without_default u) qs else qs) ≡ anyb (is_of u id) qs
any_cleared u id false qs = refl
any_cleared u id true [] = refl
any_cleared u id true (q ∷ qs) = ground (arith, any_cleared u id true qs)

update_queue-refused :
    (u id v : ℕ) (label : Text) (d : Bool) (qs : List Queue) (old : Queue)
    → UniqueIds qs
    → length (defaults u qs) ≡ 1
    → v ≢ u
    → find (is_of u id) qs ≡ some old
    → valid_label old.label ≡ true
    → is_taken u id label qs ≡ false
    → is_refused label ≡ true
    → update_queue u id label d qs ≡ err constraint_violated
unfolding update_queue relabel
update_queue-refused u id v label d qs old h one n found parses free bad =
    elim (Bool-cases (label_check label)) [
      | inr unfit ↦
          rw
            (found, parses, free, unfit, any_cleared u id d qs, any_found (is_of u id) qs old found)
            refl
      | inl fits ↦
          let invalid : valid_label label ≡ false = ground (arith, fits, bad) in
          let (after, e, _, _) = relabel-found u id v label d qs old h one n found free fits in
          rw (found, parses, free, invalid) (rw e refl)
    ]

-- The ids of queues being unique: updating a queue that the user does not have, or whose stored label
-- does not parse, fails, and so does giving it the label of another queue of the user, or a label that the table or the schema refuses.
-- Otherwise it succeeds, and no constraint is violated: a user with one default queue has one after it,
-- the updated queue where the update asks for that and the same queue as before where it does not. No
-- queue of another user changes.
pub update_queue_cases :
    (u id v : ℕ) (label : Text) (is_default : Bool) (qs : List Queue)
    → UniqueIds qs
    → length (defaults u qs) ≡ 1
    → v ≢ u
    → ((find (is_of u id) qs ≡ none)
        × (update_queue u id label is_default qs ≡ err video_queue_not_found))
      ⊎ (((old : Queue) × (find (is_of u id) qs ≡ some old)
            × (valid_label old.label ≡ false)
            × (update_queue u id label is_default qs ≡ err constraint_violated))
          ⊎ (((is_taken u id label qs ≡ true)
                × (update_queue u id label is_default qs ≡ err video_queue_name_taken))
              ⊎ (((is_refused label ≡ true)
                    × (update_queue u id label is_default qs ≡ err constraint_violated))
                  ⊎ ((queue : Queue) × (after : List Queue) × (update_queue u id label is_default qs
                        ≡ ok (queue, after))
                      × (ids (defaults u after)
                          ≡ (if is_default then id ∷ [] else ids (defaults u qs)))
                      × (filterb (λ q. q.user_id == v) after ≡ filterb (λ q. q.user_id == v) qs)))))
unfolding update_queue
update_queue_cases u id v label d qs h one n = elim (Option-cases (find (is_of u id) qs)) [
  | inl miss ↦ inl (miss, rw miss)
  | inr (old, found) ↦ elim (Bool-cases (valid_label old.label)) [
    | inr unread ↦ inr (inl (old, found, unread, rw (found, unread)))
    | inl parses ↦ elim (Bool-cases (is_taken u id label qs)) [
      | inl t ↦ inr (inr (inl (t, rw (found, parses, t))))
      | inr free ↦ elim (Bool-cases (is_refused label)) [
        | inl bad ↦ inr (
            inr (
              inr (
                inl
                  (bad, update_queue-refused u id v label d qs old h one n found parses free bad))))
        | inr good ↦
            let fits : label_check label ≡ true = ground (arith, good) in
            let valid : valid_label label ≡ true = ground (arith, good) in
            let (after, e, one_default, others) =
              relabel-found u id v label d qs old h one n found free fits in
            inr (
              inr (
                inr (
                  inr (
                    labelled (trimmed label) (d || old.is_default) old,
                    after,
                    rw (found, parses, free, valid) (rw e refl),
                    one_default,
                    others,
                  ))))
      ]
    ]
  ]
]
