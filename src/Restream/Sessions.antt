-- ===== src/Restream/Sessions.antt =====
-- RestreamStore's operations on the ingest keys and the sessions of the media node
-- (apps/web/src/server/restream/store.ts).
pub mod Invariant
pub mod Authorize
pub mod Ended
pub mod Keys
mod Tests
use streambrew.Base.{
  ℕ, max, Bool, true, false, not, ◌&&◌, ◌||◌, List, [], ◌∷◌, ◌++◌, map, Text, text_eq, Option, none,
  some, anyb, filterb, head?, length, leb, order_by, ◌==◌, if◌then◌else◌, Result, ok, err, ◌>>=◌,
  or_fail,
}
use streambrew.Restream.Tables.{
  Destination, DestinationState, idle, SessionStatus, connecting, live, ended, Ingest, Session,
  SessionDestination, Cipher, StoreError, constraint_violated, decryption_failed,
}

pub record Db : Type 0 where
  pub ingests : List Ingest
  pub destinations : List Destination
  pub sessions : List Session
  pub session_destinations : List SessionDestination

-- status <> 'ended'
abbrev pub is_active : SessionStatus → Bool
is_active ended = false
is_active _ = true

-- The row of a key. What `createIngestKey` drew is an input, and so is the nonce. `hash` is
-- hashIngestKey, a SHA-256.
abbrev pub new_ingest : Cipher → (Text → Text) → List ℕ → ℕ → ℕ → Text → Ingest
new_ingest cipher hash nonce now u key = record {
  user_id = u;
  stream_key_hash = hash key;
  stream_key_ciphertext = cipher.encrypt nonce key;
  updated_at = now;
}

-- ON CONFLICT (user_id) DO UPDATE: all fields of the row change.
abbrev pub rotated : Cipher → (Text → Text) → List ℕ → ℕ → ℕ → Text → List Ingest → List Ingest
rotated cipher hash nonce now u key [] = new_ingest cipher hash nonce now u key ∷ []
rotated cipher hash nonce now u key (r ∷ rs) =
    if r.user_id == u
    then new_ingest cipher hash nonce now u key ∷ rs
    else r ∷ rotated cipher hash nonce now u key rs

abbrev pub is_hex : ℕ → Bool
is_hex c = (leb b'0' c && leb c b'9') || (leb b'a' c && leb c b'f')

-- The CHECKs of restream_ingest.
unfoldable pub ingest_check : Ingest → Bool
ingest_check r =
    (leb 30 (length r.stream_key_ciphertext) && leb (length r.stream_key_ciphertext) 2048)
    && (length r.stream_key_hash == 64 && not (anyb (λ c. not (is_hex c)) r.stream_key_hash))

-- INSERT … ON CONFLICT (user_id) DO UPDATE, under the CHECKs and the unique hash.
unfoldable pub rotate_ingest_key :
    Cipher → (Text → Text) → List ℕ → ℕ → ℕ → Text → Db → Result StoreError Db
rotate_ingest_key cipher hash nonce now u key db =
    if not (ingest_check (new_ingest cipher hash nonce now u key))
      || anyb (λ r. text_eq r.stream_key_hash (hash key) && not (r.user_id == u)) db.ingests
    then err constraint_violated
    else ok (record db { ingests = rotated cipher hash nonce now u key db.ingests })

pub record Target : Type 0 where
  pub destination_id : ℕ
  pub target_url : Text

pub record Authorized : Type 0 where
  pub session_id : ℕ
  pub targets : List Target

-- `${serverUrl}#${decrypt(streamKeyCiphertext)}`
abbrev pub target_of : Cipher → Destination → Result StoreError Target
target_of cipher d = or_fail (cipher.decrypt d.stream_key_ciphertext) decryption_failed >>= λ key.
    ok (record { destination_id = d.destination_id; target_url = d.server_url ++ b'#' ∷ key })

abbrev pub targets_of : Cipher → List Destination → Result StoreError (List Target)
targets_of cipher [] = ok []
targets_of cipher (d ∷ ds) = target_of cipher d >>= λ t. targets_of cipher ds >>= λ ts. ok (t ∷ ts)

-- UPDATE restream_session SET status = 'ended' … WHERE user_id = u AND status <> 'ended'
abbrev pub end_user : ℕ → ℕ → Session → Session
end_user now u s =
    if s.user_id == u && is_active s.status
    then record s { status = ended; ended_at = some now; last_heartbeat_at = now }
    else s

-- INSERT under the primary key and the unique index on the active (node_id, publisher_id). The index
-- on the user's active session is tested as well.
abbrev pub insert_session : Session → List Session → Result StoreError (List Session)
insert_session s ss =
    if anyb (λ r. r.session_id == s.session_id) ss
      || (anyb (λ r. is_active r.status && r.user_id == s.user_id) ss
          || anyb
              (λ r.
                is_active r.status
                && (text_eq r.node_id s.node_id && text_eq r.publisher_id s.publisher_id))
              ss)
    then err constraint_violated
    else ok (s ∷ ss)

abbrev pub session_rows : ℕ → ℕ → ℕ → List Destination → List SessionDestination
session_rows id u now = map λ d. record {
  session_id = id;
  destination_id = d.destination_id;
  user_id = u;
  state = idle;
  outbound_bytes = 0;
  updated_at = now;
}

-- WHERE user_id = u AND enabled ORDER BY "position"
abbrev pub enabled_rows : ℕ → List Destination → List Destination
enabled_rows u ds = order_by (λ d. d.position) (filterb (λ d. d.user_id == u && d.enabled) ds)

abbrev pub open_session :
    Cipher
    → Text
    → Text
    → ℕ
    → ℕ
    → ℕ
    → List Destination
    → Db
    → Result StoreError (Option Authorized × Db)
open_session cipher node publisher id now u [] db = ok (none, db)
open_session cipher node publisher id now u (d ∷ ds) db =
    insert_session
      (record {
        session_id = id;
        user_id = u;
        node_id = node;
        publisher_id = publisher;
        status = connecting;
        live_at = none;
        last_heartbeat_at = now;
        ended_at = none;
      })
      (map (end_user now u) db.sessions)
    >>= λ sessions. targets_of cipher (d ∷ ds) >>= λ targets. ok (
      some (record { session_id = id; targets = targets }),
      record db {
        sessions = sessions;
        session_destinations = session_rows id u now (d ∷ ds) ++ db.session_destinations;
      },
    )

unfoldable pub authorize_publisher :
    Cipher
    → (Text → Text)
    → Text
    → Text
    → Text
    → ℕ
    → ℕ
    → Db
    → Result StoreError (Option Authorized × Db)
authorize_publisher cipher hash node publisher key id now db =
    elim (head? (filterb (λ r. text_eq r.stream_key_hash (hash key)) db.ingests)) [
      | none ↦ ok (none, db)
      | some r ↦
          open_session cipher node publisher id now r.user_id
            (enabled_rows r.user_id db.destinations) db
    ]

pub record Beat : Type 0 where
  pub destination_id : ℕ
  pub state : DestinationState
  pub outbound_bytes : ℕ

-- WHERE restream_session_id = id AND node_id = node AND status <> 'ended'
abbrev pub is_hit : Text → ℕ → Session → Bool
is_hit node id s = s.session_id == id && (text_eq s.node_id node && is_active s.status)

abbrev pub coalesce : Option ℕ → ℕ → ℕ
coalesce none now = now
coalesce (some t) now = t

abbrev pub go_live : Text → ℕ → ℕ → Session → Session
go_live node id now s =
    if is_hit node id s
    then record s {
      status = live;
      live_at = some (coalesce s.live_at now);
      last_heartbeat_at = now;
    }
    else s

abbrev pub report : ℕ → ℕ → Beat → SessionDestination → SessionDestination
report now id b r =
    if r.session_id == id && r.destination_id == b.destination_id
    then record r {
      state = b.state;
      outbound_bytes = max r.outbound_bytes b.outbound_bytes;
      updated_at = now;
    }
    else r

-- The loop over the reported destinations.
abbrev pub reports : ℕ → ℕ → List Beat → List SessionDestination → List SessionDestination
reports now id [] rs = rs
reports now id (b ∷ bs) rs = reports now id bs (map (report now id b) rs)

unfoldable pub heartbeat : Text → ℕ → List Beat → ℕ → Db → Bool × Db
heartbeat node id beats now db =
    if anyb (is_hit node id) db.sessions
    then (
      true,
      record db {
        sessions = map (go_live node id now) db.sessions;
        session_destinations = reports now id beats db.session_destinations;
      },
    )
    else (false, db)

abbrev pub end_one : Text → ℕ → ℕ → Session → Session
end_one node id now s =
    if is_hit node id s
    then record s { status = ended; ended_at = some now; last_heartbeat_at = now }
    else s

unfoldable pub end_session : Text → ℕ → ℕ → Db → Bool × Db
end_session node id now db = (
  anyb (is_hit node id) db.sessions,
  record db { sessions = map (end_one node id now) db.sessions },
)

-- A request of the media node, and the table after it: what throws rolls back.
pub data Request : Type 0 where
  authorize : (node publisher key : Text) (new_id now : ℕ) → Request
  beat : (node : Text) (id : ℕ) (beats : List Beat) (now : ℕ) → Request
  end : (node : Text) (id now : ℕ) → Request

abbrev pub committed {ℓ} : {A : Type ℓ} → Db → Result StoreError (A × Db) → Db
committed db (ok (a, db')) = db'
committed db (err e) = db

unfoldable pub step : Cipher → (Text → Text) → Db → Request → Db
step cipher hash db (authorize node publisher key id now) =
    committed db (authorize_publisher cipher hash node publisher key id now db)
step cipher hash db (beat node id beats now) = (heartbeat node id beats now db).1
step cipher hash db (end node id now) = (end_session node id now db).1

unfoldable pub run : Cipher → (Text → Text) → Db → List Request → Db
run cipher hash db [] = db
run cipher hash db (r ∷ rs) = run cipher hash (step cipher hash db r) rs
