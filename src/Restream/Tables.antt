-- ===== src/Restream/Tables.antt =====
-- The restream tables of db/schema.sql and the constants of packages/src/restream.ts. Ids and times
-- are numbers, of which the code uses equality and order only; bytes and texts are lists.
use streambrew.Base.{ℕ, Bool, Text, Option, List}

-- MAX_RESTREAM_DESTINATIONS
abbrev pub max_destinations : ℕ
max_destinations = 3

pub data Platform : Type 0 where
  twitch youtube kick custom : Platform

pub data DestinationState : Type 0 where
  idle forwarding failed : DestinationState

pub data SessionStatus : Type 0 where
  connecting live ended : SessionStatus

pub record Destination : Type 0 where
  pub destination_id : ℕ
  pub user_id : ℕ
  pub platform : Platform
  pub label : Text
  pub server_url : Text
  pub stream_key_ciphertext : List ℕ
  pub stream_key_hint : Text
  pub enabled : Bool
  pub position : ℕ
  pub updated_at : ℕ

pub record Ingest : Type 0 where
  pub user_id : ℕ
  pub stream_key_hash : Text
  pub stream_key_ciphertext : List ℕ
  pub updated_at : ℕ

pub record Session : Type 0 where
  pub session_id : ℕ
  pub user_id : ℕ
  pub node_id : Text
  pub publisher_id : Text
  pub status : SessionStatus
  pub live_at : Option ℕ
  pub last_heartbeat_at : ℕ
  pub ended_at : Option ℕ

pub record SessionDestination : Type 0 where
  pub session_id : ℕ
  pub destination_id : ℕ
  pub user_id : ℕ
  pub state : DestinationState
  pub outbound_bytes : ℕ
  pub updated_at : ℕ

-- What the store throws; a violated constraint is the error of the database, which rolls back.
pub data StoreError : Type 0 where
  destination_limit destination_not_found constraint_violated decryption_failed : StoreError

-- What the store asks of a CredentialCipher: the nonce of `encrypt` is random, so it is an input.
pub record Cipher : Type 0 where
  pub encrypt : List ℕ → Text → List ℕ
  pub decrypt : List ℕ → Option Text

-- What `createDestination` and `updateDestination` are given.
pub record DestinationInput : Type 0 where
  pub platform : Platform
  pub label : Text
  pub server_url : Text
  pub stream_key : Text
