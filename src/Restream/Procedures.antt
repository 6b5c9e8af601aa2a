-- ===== src/Restream/Procedures.antt =====
-- The procedures of the restream API (apps/web/src/server/api/trpc/restream.ts), over the store with
-- its cipher and the normal form of server URLs. The schemas of the inputs have passed.
pub mod Keys
pub mod Told
mod Tests
use streambrew.Base.{
  ℕ, Bool, true, List, [], ◌∷◌, Text, Option, none, some, Result, ok, err, ◌>>=◌, or_fail,
}
use streambrew.Restream.Tables.{
  Platform, Destination, DestinationInput, StoreError, destination_limit, destination_not_found,
  constraint_violated, decryption_failed,
}
use streambrew.Restream.Destinations.{
  create_destination, update_destination, set_destination_enabled, delete_destination,
}
use streambrew.Restream.Sessions.{Db, rotate_ingest_key}
use streambrew.Restream.Credentials.{Aead, credential_cipher}
use streambrew.Restream.Target.{UrlLibrary, normalize_restream_server_url}

-- The codes of a TRPCError, and an error that is thrown on.
pub data ApiError : Type 0 where
  precondition_failed not_found bad_request thrown_on : ApiError

-- toTRPCError, on the errors of the store.
abbrev pub to_trpc_error : StoreError → ApiError
to_trpc_error destination_limit = precondition_failed
to_trpc_error destination_not_found = not_found
to_trpc_error constraint_violated = thrown_on
to_trpc_error decryption_failed = thrown_on

pub record Services : Type 0 where
  pub aead : Aead
  pub hash : Text → Text
  pub library : UrlLibrary

-- What the database and the random source draw.
pub record Drawn : Type 0 where
  pub nonce : List ℕ
  pub new_id : ℕ
  pub now : ℕ

pub data Call : Type 0 where
  create : (drawn : Drawn) (u : ℕ) (input : DestinationInput) → Call
  update :
      (drawn : Drawn) (u id : ℕ) (platform : Platform) (label server_url : Text)
      (stream_key : Option Text)
      → Call
  enable : (drawn : Drawn) (u id : ℕ) (enabled : Bool) → Call
  delete : (u id : ℕ) → Call
  rotate : (drawn : Drawn) (u : ℕ) (key : Text) → Call

abbrev pub with_destinations : Db → Result StoreError (List Destination) → Result ApiError Db
with_destinations db (ok ds) = ok (record db { destinations = ds })
with_destinations db (err reason) = err (to_trpc_error reason)

abbrev pub with_ingests : Result StoreError Db → Result ApiError Db
with_ingests (ok db) = ok db
with_ingests (err reason) = err thrown_on

abbrev pub normal_url : Services → Text → Result ApiError Text
normal_url services url = or_fail (normalize_restream_server_url services.library url) bad_request

unfoldable pub call_procedure : Services → Db → Call → Result ApiError Db
call_procedure services db (create drawn u input) = normal_url services input.server_url >>= λ url.
    with_destinations db (
      create_destination (credential_cipher services.aead) drawn.nonce drawn.new_id drawn.now u
        (record input { server_url = url }) db.destinations)
call_procedure services db (update drawn u id platform label server_url stream_key) =
    normal_url services server_url >>= λ url. with_destinations db (
      update_destination (credential_cipher services.aead) drawn.nonce drawn.now u id platform label
        url stream_key db.destinations)
call_procedure services db (enable drawn u id enabled) =
    with_destinations db (set_destination_enabled drawn.now u id enabled db.destinations)
call_procedure services db (delete u id) =
    with_destinations db (delete_destination u id db.destinations)
call_procedure services db (rotate drawn u key) = with_ingests (
    rotate_ingest_key (credential_cipher services.aead) services.hash drawn.nonce drawn.now u key
      db)

-- What throws rolls back.
abbrev pub unless_thrown : Db → Result ApiError Db → Db
unless_thrown db (ok after) = after
unless_thrown db (err reason) = db

unfoldable pub call_run : Services → Db → List Call → Db
call_run services db [] = db
call_run services db (c ∷ cs) =
    call_run services (unless_thrown db (call_procedure services db c)) cs
