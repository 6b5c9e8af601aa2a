-- ===== src/Http/Requests.antt =====
-- A call of the API with a bounded body (apps/web/src/server/api/trpc/request.ts).
use streambrew.Base.{ℕ, Bool, false, List, Text, Option, none, some, if◌then◌else◌, Result, err, ok}
use streambrew.Http.Body.{
  BodyError, too_large, invalid, aborted, BodyRead, validate_content_length,
  read_bounded_request_body,
}

abbrev pub max_trpc_request_bytes : ℕ
max_trpc_request_bytes = 1_048_576

pub record TrpcRequest : Type 0 where
  pub is_post : Bool
  pub content_length : Option Text
  pub body : Option (List BodyRead)

-- The request as it came, one with the whole body and no content length, or a status.
pub data Bound : Type 0 where
  unchanged : Bound
  with_body : Text → Bound
  refused : (status : ℕ) → Bound

abbrev pub refused_as : BodyError → Bound
refused_as too_large = refused 413
refused_as invalid = refused 400
refused_as aborted = refused 400

abbrev pub rebuilt : Option (Result BodyError Text) → Option Bound
rebuilt none = none
rebuilt (some (err reason)) = some (refused_as reason)
rebuilt (some (ok body)) = some (with_body body)

-- None while the body is still read.
unfoldable pub bound_trpc_request : TrpcRequest → Option Bound
bound_trpc_request r =
    if r.is_post
    then elim (validate_content_length r.content_length max_trpc_request_bytes false) [
      | err reason ↦ some (refused_as reason)
      | ok _ ↦ elim r.body [
        | none ↦ some unchanged
        | some rs ↦ rebuilt (read_bounded_request_body max_trpc_request_bytes rs)
      ]
    ]
    else some unchanged
