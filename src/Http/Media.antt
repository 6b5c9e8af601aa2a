-- ===== src/Http/Media.antt =====
-- The requests of the media node: who may ask, what a body may hold, and the status that answers
-- (apps/web/src/server/restream/http.ts). Status codes are numbers.
pub mod Refused
use streambrew.Base.{
  ℕ, Bool, true, false, List, [], ◌∷◌, ◌++◌, Text, text_eq, Option, none, some, if◌then◌else◌,
  Result, err, ok, ◌>>=◌,
}
use streambrew.Http.Body.{
  BodyError, too_large, invalid, aborted, BodyRead, validate_content_length,
  read_bounded_request_body,
}
use streambrew.Restream.Tables.{Cipher, StoreError}
use streambrew.Restream.Sessions.{Db, Authorized, Beat, authorize_publisher, heartbeat, end_session}

abbrev pub max_request_bytes : ℕ
max_request_bytes = 16_384

pub record MediaRequest : Type 0 where
  pub authorization : Option Text
  pub content_length : Option Text
  pub body : Option (List BodyRead)

-- RestreamMediaRequestSchema
pub data MediaInput : Type 0 where
  authorize : (node_id publisher_id path : Text) → MediaInput
  beat : (node_id : Text) (session_id : ℕ) (destinations : List Beat) → MediaInput
  ended : (node_id : Text) (session_id : ℕ) → MediaInput

-- `Bearer ${env.RESTREAM_MEDIA_SHARED_SECRET}`
abbrev pub bearer : Text → Text
bearer secret = b'B' ∷ b'e' ∷ b'a' ∷ b'r' ∷ b'e' ∷ b'r' ∷ b' ' ∷ secret

abbrev pub or_empty : Option Text → Text
or_empty none = []
or_empty (some t) = t

abbrev pub has_valid_authorization : Text → MediaRequest → Bool
has_valid_authorization secret r = text_eq (or_empty r.authorization) (bearer secret)

-- `decode` decodes the bytes and parses the JSON by the schema.
abbrev pub decoded :
    (Text → Option MediaInput) → Result BodyError Text → Result BodyError MediaInput
decoded decode read =
    read >>= λ bytes. elim (decode bytes) [ some input ↦ ok input | none ↦ err invalid ]

abbrev pub parse_body :
    (Text → Option MediaInput) → Option (List BodyRead) → Option (Result BodyError MediaInput)
parse_body decode none = some (err invalid)
parse_body decode (some rs) = elim (read_bounded_request_body max_request_bytes rs) [
  | none ↦ none
  | some read ↦ some (decoded decode read)
]

-- parseRequest; none while the body is still read.
unfoldable pub parse_request :
    (Text → Option MediaInput) → MediaRequest → Option (Result BodyError MediaInput)
parse_request decode r = elim (validate_content_length r.content_length max_request_bytes true) [
  | err reason ↦ some (err reason)
  | ok _ ↦ parse_body decode r.body
]

-- What the caller gets: no answer yet, an answer, or an error that the handler throws.
pub data Answer : Type 0 where
  unanswered thrown : Answer
  response : (status : ℕ) → Answer
  authorized : Authorized → Answer

pub record Handled : Type 0 where
  pub answer : Answer
  pub db : Db

-- The service's parts: the cipher, the hash of a key, the schema of the request, that of the response,
-- and the secret.
pub record Service : Type 0 where
  pub cipher : Cipher
  pub hash : Text → Text
  pub decode : Text → Option MediaInput
  pub is_response : Authorized → Bool
  pub secret : Text

-- What the database draws for a request: an id and the time.
abbrev pub respond_authorize :
    (Authorized → Bool) → Db → Result StoreError (Option Authorized × Db) → Handled
respond_authorize is_response db (err reason) = record { answer = thrown; db = db }
respond_authorize is_response db (ok (none, after)) = record { answer = response 403; db = after }
respond_authorize is_response db (ok (some result, after)) = record {
  answer = if is_response result then authorized result else thrown;
  db = after;
}

abbrev pub respond_found : Bool × Db → Handled
respond_found (found, after) = record { answer = response (if found then 204 else 404); db = after }

unfoldable pub respond : Service → ℕ → ℕ → Db → MediaInput → Handled
respond service new_id now db (authorize node publisher path) =
    respond_authorize service.is_response db
      (authorize_publisher service.cipher service.hash node publisher path new_id now db)
respond service new_id now db (beat node id beats) = respond_found (heartbeat node id beats now db)
respond service new_id now db (ended node id) = respond_found (end_session node id now db)

abbrev pub invalid_status : BodyError → ℕ
invalid_status too_large = 413
invalid_status invalid = 400
invalid_status aborted = 400

abbrev pub respond_parsed : Service → ℕ → ℕ → Db → Option (Result BodyError MediaInput) → Handled
respond_parsed service new_id now db none = record { answer = unanswered; db = db }
respond_parsed service new_id now db (some (err reason)) = record {
  answer = response (invalid_status reason);
  db = db;
}
respond_parsed service new_id now db (some (ok input)) = respond service new_id now db input

unfoldable pub handle_restream_media : Service → ℕ → ℕ → Db → MediaRequest → Handled
handle_restream_media service new_id now db r =
    if has_valid_authorization service.secret r
    then respond_parsed service new_id now db (parse_request service.decode r)
    else record { answer = response 401; db = db }
