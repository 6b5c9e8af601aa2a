-- ===== src/Chat/Feed.antt =====
-- The state of the chat feed and its reducer (apps/web/src/hooks/use-chat-service-stream.ts), with the
-- key of a message (packages/src/chat.ts). Texts are lists of code units, and times are milliseconds
-- since 1970.
use streambrew.Base.{
  ℕ, zero, suc, ◌-◌, Bool, not, ◌&&◌, List, [], ◌∷◌, ◌++◌, Text, text_eq, Option, none, some,
  length, take, drop, filterb, ltb, if◌then◌else◌,
}

pub data SourceState : Type 0 where
  connecting live offline failed : SourceState

pub data ErrorCode : Type 0 where
  configuration_unavailable overlay_not_found stream_unavailable transport_unavailable : ErrorCode
  unauthorized : ErrorCode

pub record Message : Type 0 where
  pub id : Text
  pub source_id : Text
  pub author : Text
  pub text : Text
  pub occurred_at : ℕ

pub record State : Type 0 where
  pub messages : List Message
  pub statuses : Text → Option SourceState
  pub connection_error : Option ErrorCode

pub data Event : Type 0 where
  message : Message → Event
  message_deleted : (source_id message_id : Text) → Event
  state : (source_id : Text) → SourceState → Event
  connection_error : ErrorCode → Event

pub data Action : Type 0 where
  reset connected : Action
  transport_failed : ErrorCode → Action
  message_removed : (source_id message_id : Text) → Action
  event : Event → Action

-- `${message.sourceId}:${message.id}`
abbrev pub chat_message_key : Message → Text
chat_message_key m = m.source_id ++ b':' ∷ m.id

abbrev pub initial_state : State
initial_state = record { messages = []; statuses = λ _. none; connection_error = none }

-- { ...statuses, [id]: s }
abbrev pub set_status : Text → SourceState → (Text → Option SourceState) → Text → Option SourceState
set_status id s statuses k = if text_eq k id then some s else statuses k

abbrev pub without : Text → Text → List Message → List Message
without source_id id = filterb λ m. not (text_eq m.source_id source_id && text_eq m.id id)

-- findIndex, with `none` for -1
abbrev pub find_index {ℓ} : {A : Type ℓ} → (A → Bool) → List A → Option ℕ
find_index p [] = none
find_index p (x ∷ xs) =
    let later : Option ℕ = elim (find_index p xs) [ none ↦ none | some i ↦ some (suc i) ] in
    if p x then some zero else later

abbrev pub insert_at : Option ℕ → Message → List Message → List Message
insert_at none m ms = ms ++ m ∷ []
insert_at (some i) m ms = take i ms ++ m ∷ drop i ms

-- The number of messages that are kept, `slice(-500)`.
abbrev pub kept : ℕ
kept = 500

abbrev pub slice_last : ℕ → List Message → List Message
slice_last n ms = drop (length ms - n) ms

abbrev pub received : Message → List Message → List Message
received m ms =
    let rest : List Message =
      filterb (λ x. not (text_eq (chat_message_key x) (chat_message_key m))) ms in
    slice_last kept (insert_at (find_index (λ x. ltb m.occurred_at x.occurred_at) rest) m rest)

unfoldable pub reducer : State → Action → State
reducer s reset = initial_state
reducer s connected = record s { connection_error = none }
reducer s (transport_failed code) = record s { connection_error = some code }
reducer s (message_removed source_id id) = record s { messages = without source_id id s.messages }
reducer s (event (connection_error code)) = record s { connection_error = some code }
reducer s (event (state source_id st)) = record s { statuses = set_status source_id st s.statuses }
reducer s (event (message_deleted source_id id)) = record s {
  messages = without source_id id s.messages;
}
reducer s (event (message m)) = record s {
  messages = received m s.messages;
  statuses = set_status m.source_id live s.statuses;
}

unfoldable pub reduce_all : State → List Action → State
reduce_all s [] = s
reduce_all s (a ∷ rest) = reduce_all (reducer s a) rest
