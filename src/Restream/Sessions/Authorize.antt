-- ===== src/Restream/Sessions/Authorize.antt =====
-- Who `authorizePublisher` lets in (apps/web/src/server/restream/store.ts), and that every request
-- keeps the session table valid.
use streambrew.Base.{
  ℕ, ◌≡◌, refl, sym, ap, ◌∙◌, ◌≢◌, ◌⊎◌, inl, inr, false, List, [], ◌∷◌, ◌++◌, map, Text, text_eq,
  Option, none, some, arith, anyb, filterb, head?, ◌==◌, Bool-cases, Option-cases, Result, ok, err,
  ◌>>=◌,
}
use streambrew.Restream.Tables.{Destination, connecting, Session, Ingest, Cipher, StoreError}
use streambrew.Restream.Sessions.{
  Db, end_user, insert_session, Authorized, open_session, enabled_rows, session_rows,
  authorize_publisher, targets_of, is_hit, heartbeat, end_session, Request, authorize, beat, end,
  step, run,
}
use streambrew.Restream.Sessions.Invariant.{
  count_active, IsValid, count-end_user, end_user-IsValid, insert-IsValid, heartbeat-IsValid,
  end_session-IsValid,
}

abbrev new_session : Text → Text → ℕ → ℕ → ℕ → Session
new_session node publisher id now u = record {
  session_id = id;
  user_id = u;
  node_id = node;
  publisher_id = publisher;
  status = connecting;
  live_at = none;
  last_heartbeat_at = now;
  ended_at = none;
}

-- The table after a publisher of user `u` was let in with these targets.
pub record Opened (cipher : Cipher) (node publisher : Text) (id now u : ℕ) (db : Db)
    (a : Authorized) (db' : Db) : Type 0 where
  pub enabled : enabled_rows u db.destinations ≢ []
  pub session : a.session_id ≡ id
  pub targets : targets_of cipher (enabled_rows u db.destinations) ≡ ok a.targets
  pub sessions :
      db'.sessions ≡ new_session node publisher id now u ∷ map (end_user now u) db.sessions
  pub rows :
      db'.session_destinations
      ≡ session_rows id u now (enabled_rows u db.destinations) ++ db.session_destinations
  pub fresh : anyb (λ r. r.session_id == id) db.sessions ≡ false
  pub one : count_active u db'.sessions ≡ 1

pub fresh-end_user :
    (now u id : ℕ) (ss : List Session)
    → anyb (λ r. r.session_id == id) (map (end_user now u) ss) ≡ anyb (λ r. r.session_id == id) ss
fresh-end_user now u id [] = refl
fresh-end_user now u id (s ∷ ss) = ground (arith, fresh-end_user now u id ss)

insert_session-eq-ok :
    (s : Session) (ss ss' : List Session)
    → insert_session s ss ≡ ok ss'
    → (ss' ≡ s ∷ ss) × (anyb (λ r. r.session_id == s.session_id) ss ≡ false)
insert_session-eq-ok s ss ss' h = elim (Bool-cases (anyb (λ r. r.session_id == s.session_id) ss)) [
  | inl taken ↦ absurd (cc (rw taken at h))
  | inr free ↦ (ground arith, free)
]

one_active :
    (node publisher : Text) (id now u : ℕ) (ss : List Session)
    → count_active u (new_session node publisher id now u ∷ map (end_user now u) ss) ≡ 1
one_active node publisher id now u ss = ground (arith, count-end_user now u u ss)

abbrev committed_db : ℕ → ℕ → ℕ → List Destination → Db → List Session → Db
committed_db id u now ds db ss = record db {
  sessions = ss;
  session_destinations = session_rows id u now ds ++ db.session_destinations;
}

-- Both steps of a transaction that commits have succeeded.
both-ok :
    {A B C : Type 0} (m : Result StoreError A) (n : Result StoreError B) (f : A → B → C) (c : C)
    → (m >>= λ a. n >>= λ b. ok (f a b)) ≡ ok c
    → (a : A) × (b : B) × (m ≡ ok a) × (n ≡ ok b) × (c ≡ f a b)
both-ok (ok a) (ok b) f c h = (a, b, refl, refl, cc)
both-ok (ok a) (err e) f c h = absurd (cc)
both-ok (err e) n f c h = absurd (cc)

open_session-Opened :
    (cipher : Cipher) (node publisher : Text) (id now u : ℕ) (ds : List Destination) (db : Db)
    (r : Option Authorized) (db' : Db)
    → ds ≡ enabled_rows u db.destinations
    → open_session cipher node publisher id now u ds db ≡ ok (r, db')
    → ((r ≡ none) × (db' ≡ db) × (ds ≡ []))
      ⊎ ((a : Authorized) × (r ≡ some a) × Opened cipher node publisher id now u db a db')
open_session-Opened cipher node publisher id now u [] db r db' e h =
    inl (ground arith, ground arith, refl)
open_session-Opened cipher node publisher id now u (d ∷ ds) db r db' e h =
    let (ss, ts, inserted, decrypted, same) =
      both-ok
        (insert_session (new_session node publisher id now u) (map (end_user now u) db.sessions))
        (targets_of cipher (d ∷ ds))
        (λ ss ts.
          (some (record { session_id = id; targets = ts }), committed_db id u now (d ∷ ds) db ss))
        (r, db') h in
    let (shape, fresh) =
      insert_session-eq-ok (new_session node publisher id now u) (map (end_user now u) db.sessions)
        ss inserted in
    let after : db' ≡ committed_db id u now (d ∷ ds) db ss = ap (λ x. x.1) same in
    let sessions = ap (λ x. x.sessions) after ∙ shape in
    let a : Authorized = record { session_id = id; targets = ts } in
    inr (
      a,
      ap (λ x. x.0) same,
      record {
        enabled = λ q. cc (e, q);
        session = refl;
        targets = ap (targets_of cipher) (sym e) ∙ decrypted;
        sessions = sessions;
        rows =
            ap (λ x. x.session_destinations) after
            ∙ ap (λ x. session_rows id u now x ++ db.session_destinations) e;
        fresh = sym (fresh-end_user now u id db.sessions) ∙ fresh;
        one = ap (count_active u) sessions ∙ one_active node publisher id now u db.sessions;
      },
    )

-- Where no error comes up: a publisher is refused, with nothing changed, exactly when no stored key
-- has the hash of the given key or its owner has no enabled destination. Otherwise the targets are
-- the owner's enabled destinations in the order of their places with their keys decrypted, each
-- gets a row, every older session of the owner is ended, and the new one is the owner's only active
-- session.
pub authorize_publisher-Opened :
    (cipher : Cipher) (hash : Text → Text) (node publisher key : Text) (id now : ℕ) (db : Db)
    (r : Option Authorized) (db' : Db)
    → authorize_publisher cipher hash node publisher key id now db ≡ ok (r, db')
    → let found : Option Ingest =
        head? (filterb (λ i. text_eq i.stream_key_hash (hash key)) db.ingests) in
      ((r ≡ none)
        × (db' ≡ db)
        × ((found ≡ none)
            ⊎ ((i : Ingest) × (found ≡ some i) × (enabled_rows i.user_id db.destinations ≡ []))))
      ⊎ ((i : Ingest) × (a : Authorized) × (found ≡ some i)
          × (r ≡ some a)
          × Opened cipher node publisher id now i.user_id db a db')
unfolding authorize_publisher
authorize_publisher-Opened cipher hash node publisher key id now db r db' h =
    elim (Option-cases (head? (filterb (λ i. text_eq i.stream_key_hash (hash key)) db.ingests))) [
      | inl missing ↦
          let k = (rw (missing, authorize_publisher) at h) in
          inl (ground arith, ground arith, inl missing)
      | inr (i, found) ↦
          let k = (rw (found, authorize_publisher) at h) in
          elim (open_session-Opened cipher node publisher id now i.user_id
            (enabled_rows i.user_id db.destinations) db r db' refl k) [
              | inl (x, y, z) ↦ inl (x, y, inr (i, found, z))
              | inr (a, x, y) ↦ inr (i, a, found, x, y)
            ]
    ]

Opened-IsValid :
    {cipher : Cipher} {node publisher : Text} {id now u : ℕ} {db : Db} {a : Authorized} {db' : Db}
    → Opened cipher node publisher id now u db a db'
    → IsValid db.sessions
    → IsValid db'.sessions
Opened-IsValid {node} {publisher} {id} {now} {u} {db} o h = rw o.sessions (
    insert-IsValid (new_session node publisher id now u) (map (end_user now u) db.sessions)
      (end_user-IsValid now u db.sessions h) (refl, refl)
      (ground (arith, count-end_user now u u db.sessions)))

pub Result-cases {ℓ κ} :
    {E : Type ℓ} {A : Type κ} (r : Result E A) → ((a : A) × (r ≡ ok a)) ⊎ ((e : E) × (r ≡ err e))
Result-cases (ok a) = inl (a, refl)
Result-cases (err e) = inr (e, refl)

-- One request keeps the rows well formed and every user at one active session at most.
pub step-IsValid :
    (cipher : Cipher) (hash : Text → Text) (db : Db) (q : Request)
    → IsValid db.sessions
    → IsValid (step cipher hash db q).sessions
unfolding step heartbeat end_session
step-IsValid cipher hash db (authorize node publisher key id now) h =
    elim (Result-cases (authorize_publisher cipher hash node publisher key id now db)) [
      | inr (e, f) ↦ rw (f, step) h
      | inl ((r, db'), f) ↦
          rw (f, step)
            (elim (authorize_publisher-Opened cipher hash node publisher key id now db r db' f) [
              | inl (x, same, z) ↦ rw same h
              | inr (i, a, x, y, o) ↦ Opened-IsValid o h
            ])
    ]
step-IsValid cipher hash db (beat node id beats now) h =
    elim (Bool-cases (anyb (is_hit node id) db.sessions)) [
      | inl e ↦ rw (e, step, heartbeat) (heartbeat-IsValid node id now db.sessions h)
      | inr e ↦ rw (e, step, heartbeat) h
    ]
step-IsValid cipher hash db (end node id now) h = end_session-IsValid node id now db.sessions h

-- From a valid table, whatever the media nodes request, in whatever order, every session row
-- satisfies the constraint on its status and times, and no user ever has two active sessions.
pub run-IsValid :
    (cipher : Cipher) (hash : Text → Text) (db : Db) (qs : List Request)
    → IsValid db.sessions
    → IsValid (run cipher hash db qs).sessions
unfolding run
run-IsValid cipher hash db [] h = h
run-IsValid cipher hash db (q ∷ qs) h =
    run-IsValid cipher hash (step cipher hash db q) qs (step-IsValid cipher hash db q h)
