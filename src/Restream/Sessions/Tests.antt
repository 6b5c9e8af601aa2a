-- ===== src/Restream/Sessions/Tests.antt =====
-- Examples of the restream sessions (apps/web/src/server/restream/store.ts).
use streambrew.Base.{
  codes, not, ◌&&◌, err, ◌≡◌, refl, ◌⊎◌, inl, inr, true, false, List, [], ◌∷◌, ◌++◌, Text, Option,
  none, some, arith, head?, anyb, filterb, text_eq, ◌==◌, Bool-cases, ok,
}
use streambrew.Restream.Tables.{
  twitch, Destination, Ingest, idle, forwarding, connecting, ended, Session, Cipher,
  constraint_violated,
}
use streambrew.Restream.Sessions.Keys.{Replaced, rotate_ingest_key_cases}
use streambrew.Restream.Sessions.{
  new_ingest, ingest_check, rotate_ingest_key, Db, Authorized, Beat, Request, authorize, beat, end,
  authorize_publisher, enabled_rows, is_hit, heartbeat, end_session, run,
}
use streambrew.Restream.Sessions.Invariant.{IsValid}
use streambrew.Restream.Sessions.Authorize.{Opened, authorize_publisher-Opened, run-IsValid}
use streambrew.Restream.Sessions.Ended.{IsEnded, end_is_final, NotFallen, heartbeat-NotFallen}

abbrev cipher : Cipher
cipher = record { encrypt = λ nonce key. nonce ++ key; decrypt = λ bytes. some bytes }

abbrev hash : Text → Text
hash key = b'a' ∷ key

abbrev destination : Destination
destination = record {
  destination_id = 10;
  user_id = 7;
  platform = twitch;
  label = [];
  server_url = b's' ∷ [];
  stream_key_ciphertext = b'k' ∷ [];
  stream_key_hint = b'k' ∷ [];
  enabled = true;
  position = 0;
  updated_at = 100;
}

abbrev session : Session
session = record {
  session_id = 50;
  user_id = 7;
  node_id = b'n' ∷ [];
  publisher_id = b'p' ∷ [];
  status = connecting;
  live_at = none;
  last_heartbeat_at = 100;
  ended_at = none;
}

abbrev db : Db
db = record {
  destinations = destination ∷ [];
  ingests =
      record {
        user_id = 7;
        stream_key_hash = b'a' ∷ b'q' ∷ [];
        stream_key_ciphertext = [];
        updated_at = 1;
      }
      ∷ [];
  sessions = session ∷ [];
  session_destinations = [];
}

abbrev opened : Authorized
opened = record {
  session_id = 51;
  targets = record { destination_id = 10; target_url = b's' ∷ b'#' ∷ b'k' ∷ [] } ∷ [];
}

abbrev opened_db : Db
opened_db = record db {
  sessions =
      record session { session_id = 51; publisher_id = b'r' ∷ []; last_heartbeat_at = 200 }
      ∷ record session { status = ended; ended_at = some 200; last_heartbeat_at = 200 }
      ∷ [];
  session_destinations =
      record {
        session_id = 51;
        destination_id = 10;
        user_id = 7;
        state = idle;
        outbound_bytes = 0;
        updated_at = 200;
      }
      ∷ [];
}

opens :
    authorize_publisher cipher hash (b'n' ∷ []) (b'r' ∷ []) (b'q' ∷ []) 51 200 db
    ≡ ok (some opened, opened_db)
unfolding authorize_publisher
opens = refl

authorize_publisher-Opened_example :
    let found : Option Ingest =
      head? (filterb (λ i. text_eq i.stream_key_hash (hash (b'q' ∷ []))) db.ingests) in
    ((some opened ≡ none)
      × (opened_db ≡ db)
      × ((found ≡ none)
          ⊎ ((i : Ingest) × (found ≡ some i) × (enabled_rows i.user_id db.destinations ≡ []))))
    ⊎ ((i : Ingest) × (a : Authorized) × (found ≡ some i)
        × (some opened ≡ some a)
        × Opened cipher (b'n' ∷ []) (b'r' ∷ []) 51 200 i.user_id db a opened_db)
authorize_publisher-Opened_example =
    authorize_publisher-Opened cipher hash (b'n' ∷ []) (b'r' ∷ []) (b'q' ∷ []) 51 200 db
      (some opened) opened_db opens

abbrev requests : List Request
requests =
    authorize (b'n' ∷ []) (b'r' ∷ []) (b'q' ∷ []) 51 200
    ∷ beat (b'n' ∷ []) 51
        (record { destination_id = 10; state = forwarding; outbound_bytes = 5 } ∷ []) 210
    ∷ end (b'n' ∷ []) 51 220
    ∷ []

db-IsValid : IsValid db.sessions
db-IsValid = record {
  formed = ((refl, refl), tt);
  one = λ v. elim (Bool-cases (7 == v)) [ inl e ↦ rw e (omega arith) | inr e ↦ rw e (omega arith) ];
}

run-IsValid_example : IsValid (run cipher hash db requests).sessions
run-IsValid_example = run-IsValid cipher hash db requests db-IsValid

opened-IsEnded : IsEnded 50 opened_db
opened-IsEnded = (refl, (refl, (refl, tt)))

end_is_final_example :
    let later = run cipher hash opened_db requests in
    IsEnded 50 later
    × (heartbeat (b'n' ∷ []) 50 [] 300 later ≡ (false, later))
    × ((end_session (b'n' ∷ []) 50 300 later).0 ≡ false)
end_is_final_example =
    end_is_final cipher hash 50 opened_db requests (b'n' ∷ []) [] 300 opened-IsEnded

abbrev beats : List Beat
beats = record { destination_id = 10; state = forwarding; outbound_bytes = 5 } ∷ []

heartbeat-NotFallen_example :
    NotFallen opened_db.session_destinations
      (heartbeat (b'n' ∷ []) 51 beats 210 opened_db).1.session_destinations
    × ((heartbeat (b'n' ∷ []) 51 beats 210 opened_db).0
        ≡ anyb (is_hit (b'n' ∷ []) 51) opened_db.sessions)
    × (((heartbeat (b'n' ∷ []) 51 beats 210 opened_db).0 ≡ true)
        ⊎ ((heartbeat (b'n' ∷ []) 51 beats 210 opened_db).1 ≡ opened_db))
heartbeat-NotFallen_example = heartbeat-NotFallen (b'n' ∷ []) 51 beats 210 opened_db

-- 63 letters, so that the hash here, which puts a letter before them, has the length of a SHA-256.
abbrev long_key : Text
long_key = codes "bcdef0123456789abcdef0123456789abcdef0123456789abcdef0123456789"

accepted : ingest_check (new_ingest cipher hash (9 ∷ []) 300 7 long_key) ≡ true
unfolding ingest_check
accepted = refl

rotate_ingest_key_cases_example :
    let i : Ingest = new_ingest cipher hash (9 ∷ []) 300 7 long_key in
    let after = rotate_ingest_key cipher hash (9 ∷ []) 300 7 long_key db in
    ((after ≡ err constraint_violated)
      × ((ingest_check i ≡ false)
          ⊎ (anyb
                (λ r. text_eq r.stream_key_hash (hash long_key) && not (r.user_id == 7))
                db.ingests
              ≡ true)))
    ⊎ ((db' : Db) × (after ≡ ok db')
        × Replaced i db.ingests db'.ingests
        × (db'.sessions ≡ db.sessions)
        × (db'.destinations ≡ db.destinations))
rotate_ingest_key_cases_example =
    rotate_ingest_key_cases cipher hash (9 ∷ []) 300 7 long_key db (refl, tt)
