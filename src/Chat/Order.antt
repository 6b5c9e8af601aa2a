-- ===== src/Chat/Order.antt =====
-- The messages of the feed stay in the order of their times, each key once, at most 500
-- (`reducer` in apps/web/src/hooks/use-chat-service-stream.ts).
use native.Mathlib.Nat.{le_trans}
use streambrew.Base.{
  ℕ, suc, zero, ◌-◌, ◌≤◌, ◌<◌, ◌≡◌, refl, sym, ap, ◌∙◌, ◌≢◌, ◌⊎◌, inl, inr, Bool, true, false, not,
  List, [], ◌∷◌, text_eq, text_eq_refl, Option, none, some, arith, length, length-drop, drop,
  filterb, length-filterb-le, All, All-mono, All-filterb, Sorted, ltb, Bool-cases, if◌then◌else◌,
}
use streambrew.Chat.Feed.{
  Message, State, message, message_deleted, state, connection_error, Action, reset, connected,
  transport_failed, message_removed, event, chat_message_key, initial_state, find_index, insert_at,
  kept, slice_last, received, reducer, reduce_all,
}

abbrev at : Message → ℕ
at m = m.occurred_at

-- Every key stands once.
abbrev pub UniqueKeys : List Message → Type 0
UniqueKeys [] = Unit
UniqueKeys (m ∷ ms) = All (λ x. chat_message_key x ≢ chat_message_key m) ms × UniqueKeys ms

pub record IsValid (ms : List Message) : Type 0 where
  pub ordered : Sorted at ms
  pub unique : UniqueKeys ms
  pub bounded : length ms ≤ kept

-- Where the code puts a message, as a recursion: before the first that is later.
abbrev pub placed : Message → List Message → List Message
placed m [] = m ∷ []
placed m (x ∷ xs) = if ltb (at m) (at x) then m ∷ x ∷ xs else x ∷ placed m xs

insert_at-suc :
    (o : Option ℕ) (m x : Message) (xs : List Message)
    → insert_at (elim o [ none ↦ none | some i ↦ some (suc i) ]) m (x ∷ xs) ≡ x ∷ insert_at o m xs
insert_at-suc none m x xs = refl
insert_at-suc (some i) m x xs = refl

pub insert_at-placed :
    (m : Message) (ms : List Message)
    → insert_at (find_index (λ x. ltb (at m) (at x)) ms) m ms ≡ placed m ms
insert_at-placed m [] = refl
insert_at-placed m (x ∷ xs) = elim (Bool-cases (ltb (at m) (at x))) [
  | inl e ↦ rw e
  | inr e ↦ rw e (insert_at-suc _ m x xs ∙ ap (◌∷◌ x) (insert_at-placed m xs))
]

All-placed {κ} :
    (P : Message → Type κ) (m : Message) (ms : List Message) → P m → All P ms → All P (placed m ms)
All-placed P m [] p h = (p, tt)
All-placed P m (x ∷ xs) p h = ground (arith, All-placed P m xs p h.1, h.0)

pub length-placed : (m : Message) (ms : List Message) → length (placed m ms) ≡ suc (length ms)
length-placed m [] = refl
length-placed m (x ∷ xs) = ground (arith, length-placed m xs)

Sorted-placed : (m : Message) (ms : List Message) → Sorted at ms → Sorted at (placed m ms)
Sorted-placed m [] h = (tt, tt)
Sorted-placed m (x ∷ xs) h = elim (Bool-cases (ltb (at m) (at x))) [
  | inl e ↦
      let le : at m ≤ at x = ground arith in
      rw e ((le, All-mono _ _ (λ y k. le_trans le k) xs h.0), h)
  | inr e ↦
      let le : at x ≤ at m = ground arith in
      rw e (All-placed (λ y. at x ≤ at y) m xs le h.0, Sorted-placed m xs h.1)
]

UniqueKeys-placed :
    (m : Message) (ms : List Message)
    → All (λ x. chat_message_key x ≢ chat_message_key m) ms
    → UniqueKeys ms
    → UniqueKeys (placed m ms)
UniqueKeys-placed m [] a h = (tt, tt)
UniqueKeys-placed m (x ∷ xs) a h = elim (Bool-cases (ltb (at m) (at x))) [
  | inl e ↦ rw e (a, h)
  | inr e ↦ rw e (
    All-placed (λ y. chat_message_key y ≢ chat_message_key x) m xs (λ q. a.0 (sym q)) h.0,
    UniqueKeys-placed m xs a.1 h.1,
  )
]

Sorted-filterb : (p : Message → Bool) (ms : List Message) → Sorted at ms → Sorted at (filterb p ms)
Sorted-filterb p [] h = tt
Sorted-filterb p (x ∷ xs) h = elim (Bool-cases (p x)) [
  | inl e ↦ rw e (All-filterb _ p xs h.0, Sorted-filterb p xs h.1)
  | inr e ↦ rw e (Sorted-filterb p xs h.1)
]

UniqueKeys-filterb :
    (p : Message → Bool) (ms : List Message) → UniqueKeys ms → UniqueKeys (filterb p ms)
UniqueKeys-filterb p [] h = tt
UniqueKeys-filterb p (x ∷ xs) h = elim (Bool-cases (p x)) [
  | inl e ↦ rw e (All-filterb _ p xs h.0, UniqueKeys-filterb p xs h.1)
  | inr e ↦ rw e (UniqueKeys-filterb p xs h.1)
]

Sorted-drop : (n : ℕ) (ms : List Message) → Sorted at ms → Sorted at (drop n ms)
Sorted-drop zero ms h = h
Sorted-drop (suc n) [] h = tt
Sorted-drop (suc n) (x ∷ xs) h = Sorted-drop n xs h.1

UniqueKeys-drop : (n : ℕ) (ms : List Message) → UniqueKeys ms → UniqueKeys (drop n ms)
UniqueKeys-drop zero ms h = h
UniqueKeys-drop (suc n) [] h = tt
UniqueKeys-drop (suc n) (x ∷ xs) h = UniqueKeys-drop n xs h.1

filterb-IsValid : (p : Message → Bool) (ms : List Message) → IsValid ms → IsValid (filterb p ms)
filterb-IsValid p ms h = record {
  ordered = Sorted-filterb p ms h.ordered;
  unique = UniqueKeys-filterb p ms h.unique;
  bounded = omega (arith, length-filterb-le p ms, h.bounded);
}

-- The messages with other keys than a given one.
abbrev pub others : Message → List Message → List Message
others m = filterb λ x. not (text_eq (chat_message_key x) (chat_message_key m))

others-fresh :
    (m : Message) (ms : List Message)
    → All (λ x. chat_message_key x ≢ chat_message_key m) (others m ms)
others-fresh m [] = tt
others-fresh m (x ∷ xs) = elim (Bool-cases (text_eq (chat_message_key x) (chat_message_key m))) [
  | inl e ↦ rw e (others-fresh m xs)
  | inr e ↦ rw e ((λ q. cc (clash q, e)), others-fresh m xs)
]
  where
    clash :
        chat_message_key x ≡ chat_message_key m
        → text_eq (chat_message_key x) (chat_message_key m) ≡ true
    clash q = rw q (text_eq_refl (chat_message_key m))

-- What a message does to the list: it replaces the one with its key, and goes before the first that
-- is later; of more than 500 messages the last 500 stay.
pub received_lem :
    (m : Message) (ms : List Message) → received m ms ≡ slice_last kept (placed m (others m ms))
received_lem m ms = ap (slice_last kept) (insert_at-placed m (others m ms))

received-IsValid : (m : Message) (ms : List Message) → IsValid ms → IsValid (received m ms)
received-IsValid m ms h = rw (received_lem m ms) (record {
  ordered = Sorted-drop _ _ (Sorted-placed m (others m ms) kept_valid.ordered);
  unique =
      UniqueKeys-drop _ _ (UniqueKeys-placed m (others m ms) (others-fresh m ms) kept_valid.unique);
  bounded =
      omega (arith, length-drop (length (placed m (others m ms)) - kept) (placed m (others m ms)));
})
  where
    kept_valid : IsValid (others m ms)
    kept_valid = filterb-IsValid (λ x. not (text_eq (chat_message_key x) (chat_message_key m))) ms h

reducer-IsValid : (s : State) (a : Action) → IsValid s.messages → IsValid (reducer s a).messages
unfolding reducer
reducer-IsValid s reset h = record { ordered = tt; unique = tt; bounded = omega arith }
reducer-IsValid s connected h = h
reducer-IsValid s (transport_failed code) h = h
reducer-IsValid s (message_removed source_id id) h = filterb-IsValid _ s.messages h
reducer-IsValid s (event (connection_error code)) h = h
reducer-IsValid s (event (state source_id st)) h = h
reducer-IsValid s (event (message_deleted source_id id)) h = filterb-IsValid _ s.messages h
reducer-IsValid s (event (message m)) h = received-IsValid m s.messages h

reduce_from-IsValid :
    (s : State) (actions : List Action)
    → IsValid s.messages
    → IsValid (reduce_all s actions).messages
unfolding reduce_all
reduce_from-IsValid s [] h = h
reduce_from-IsValid s (a ∷ rest) h = reduce_from-IsValid (reducer s a) rest (reducer-IsValid s a h)

-- After any actions whatever, the messages of the feed are in the order of their times, no two have
-- the same key, and there are at most 500.
pub reduce_all-IsValid :
    (actions : List Action) → IsValid (reduce_all initial_state actions).messages
reduce_all-IsValid actions =
    reduce_from-IsValid initial_state actions
      (record { ordered = tt; unique = tt; bounded = omega arith })

-- Into a valid list a message goes once, before the first that is later, and replaces an older
-- message with its key. The others all stay, unless they are 500: then the oldest of all is dropped.
pub received_cases :
    (m : Message) (ms : List Message)
    → IsValid ms
    → ((length (others m ms) < kept) × (received m ms ≡ placed m (others m ms)))
      ⊎ ((length (others m ms) ≡ kept) × (received m ms ≡ drop 1 (placed m (others m ms))))
received_cases m ms h = elim (Bool-cases (ltb (length (others m ms)) kept)) [
  | inl e ↦
      inl (ground arith, received_lem m ms ∙ ap (λ n. drop n (placed m (others m ms))) (few e))
  | inr e ↦ inr (full e, received_lem m ms ∙ ap (λ n. drop n (placed m (others m ms))) (one e))
]
  where
    le : length (others m ms) ≤ kept
    le = omega (
      arith,
      length-filterb-le (λ x. not (text_eq (chat_message_key x) (chat_message_key m))) ms,
      h.bounded,
    )

    few : ltb (length (others m ms)) kept ≡ true → length (placed m (others m ms)) - kept ≡ 0
    few e = ground (arith, length-placed m (others m ms))

    full : ltb (length (others m ms)) kept ≡ false → length (others m ms) ≡ kept
    full e = ground (arith, le)

    one : ltb (length (others m ms)) kept ≡ false → length (placed m (others m ms)) - kept ≡ 1
    one e = omega (arith, length-placed m (others m ms), full e)
