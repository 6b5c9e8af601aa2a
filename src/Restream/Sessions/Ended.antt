-- ===== src/Restream/Sessions/Ended.antt =====
-- What later requests do to a session that has ended, and what a heartbeat does to the byte counts
-- (`heartbeat` and `endSession` in apps/web/src/server/restream/store.ts).
use streambrew.Base.{
  ◌&&◌, ℕ, ◌≤◌, ◌≡◌, refl, ap, ◌∙◌, ◌⊎◌, inl, inr, true, false, List, [], ◌∷◌, map, Text, arith,
  anyb, All, ◌==◌, ne→==, Bool-cases,
}
use streambrew.Restream.Tables.{Session, SessionDestination, Cipher}
use streambrew.Restream.Sessions.{
  is_active, Db, end_user, Authorized, authorize_publisher, is_hit, go_live, Beat, report, reports,
  heartbeat, end_one, end_session, Request, authorize, beat, end, step, run,
}
use streambrew.Restream.Sessions.Authorize.{
  Opened, authorize_publisher-Opened, fresh-end_user, Result-cases,
}

-- A row of the session has ended.
abbrev pub HasEnded : ℕ → Session → Type 0
HasEnded id s = (s.session_id == id && is_active s.status) ≡ false

-- The session is in the table, and has ended.
abbrev pub IsEnded : ℕ → Db → Type 0
IsEnded id db = (anyb (λ s. s.session_id == id) db.sessions ≡ true) × All (HasEnded id) db.sessions

All-end_user :
    (id now u : ℕ) (ss : List Session)
    → All (HasEnded id) ss
    → All (HasEnded id) (map (end_user now u) ss)
All-end_user id now u [] h = tt
All-end_user id now u (s ∷ ss) h = (ground (arith, h.0), All-end_user id now u ss h.1)

All-go_live :
    (id : ℕ) (node : Text) (id' now : ℕ) (ss : List Session)
    → All (HasEnded id) ss
    → All (HasEnded id) (map (go_live node id' now) ss)
All-go_live id node id' now [] h = tt
All-go_live id node id' now (s ∷ ss) h = (ground (arith, h.0), All-go_live id node id' now ss h.1)

All-end_one :
    (id : ℕ) (node : Text) (id' now : ℕ) (ss : List Session)
    → All (HasEnded id) ss
    → All (HasEnded id) (map (end_one node id' now) ss)
All-end_one id node id' now [] h = tt
All-end_one id node id' now (s ∷ ss) h = (ground (arith, h.0), All-end_one id node id' now ss h.1)

listed-go_live :
    (id : ℕ) (node : Text) (id' now : ℕ) (ss : List Session)
    → anyb (λ s. s.session_id == id) (map (go_live node id' now) ss)
      ≡ anyb (λ s. s.session_id == id) ss
listed-go_live id node id' now [] = refl
listed-go_live id node id' now (s ∷ ss) = ground (arith, listed-go_live id node id' now ss)

listed-end_one :
    (id : ℕ) (node : Text) (id' now : ℕ) (ss : List Session)
    → anyb (λ s. s.session_id == id) (map (end_one node id' now) ss)
      ≡ anyb (λ s. s.session_id == id) ss
listed-end_one id node id' now [] = refl
listed-end_one id node id' now (s ∷ ss) = ground (arith, listed-end_one id node id' now ss)

not_hit :
    (id : ℕ) (node : Text) (ss : List Session)
    → All (HasEnded id) ss
    → anyb (is_hit node id) ss ≡ false
not_hit id node [] h = refl
not_hit id node (s ∷ ss) h = ground (arith, h.0, not_hit id node ss h.1)

Opened-IsEnded :
    {cipher : Cipher} {node publisher : Text} {new now u : ℕ} {db : Db} {a : Authorized} {db' : Db}
    (id : ℕ)
    → Opened cipher node publisher new now u db a db'
    → IsEnded id db
    → IsEnded id db'
Opened-IsEnded {node} {publisher} {new} {now} {u} {db} id o h = rw o.sessions (
  ground (arith, fresh-end_user now u id db.sessions, h.0),
  (ground (arith, ne→== new id taken), All-end_user id now u db.sessions h.1),
)
  where
    taken : ¬ (new ≡ id)
    taken q = cc (ap (λ k. anyb (λ s. s.session_id == k) db.sessions) q, o.fresh, h.0)

step-IsEnded :
    (cipher : Cipher) (hash : Text → Text) (id : ℕ) (db : Db) (q : Request)
    → IsEnded id db
    → IsEnded id (step cipher hash db q)
unfolding step heartbeat end_session
step-IsEnded cipher hash id db (authorize node publisher key new now) h =
    elim (Result-cases (authorize_publisher cipher hash node publisher key new now db)) [
      | inr (e, f) ↦ rw (f, step) h
      | inl ((r, db'), f) ↦
          rw (f, step)
            (elim (authorize_publisher-Opened cipher hash node publisher key new now db r db' f) [
              | inl (x, same, z) ↦ rw same h
              | inr (i, a, x, y, o) ↦ Opened-IsEnded id o h
            ])
    ]
step-IsEnded cipher hash id db (beat node id' beats now) h =
    elim (Bool-cases (anyb (is_hit node id') db.sessions)) [
      | inl e ↦
          rw (e, step, heartbeat)
            (
              listed-go_live id node id' now db.sessions ∙ h.0,
              All-go_live id node id' now db.sessions h.1,
            )
      | inr e ↦ rw (e, step, heartbeat) h
    ]
step-IsEnded cipher hash id db (end node id' now) h =
    (listed-end_one id node id' now db.sessions ∙ h.0, All-end_one id node id' now db.sessions h.1)

run-IsEnded :
    (cipher : Cipher) (hash : Text → Text) (id : ℕ) (db : Db) (qs : List Request)
    → IsEnded id db
    → IsEnded id (run cipher hash db qs)
unfolding run
run-IsEnded cipher hash id db [] h = h
run-IsEnded cipher hash id db (q ∷ qs) h =
    run-IsEnded cipher hash id (step cipher hash db q) qs (step-IsEnded cipher hash id db q h)

-- An end is final: a session that has ended stays in the table as ended whatever is requested next,
-- and from then on both its heartbeat and its end, from any node, answer that it is not found; the
-- heartbeat changes nothing.
pub end_is_final :
    (cipher : Cipher) (hash : Text → Text) (id : ℕ) (db : Db) (qs : List Request) (node : Text)
    (beats : List Beat) (now : ℕ)
    → IsEnded id db
    → let later = run cipher hash db qs in
      IsEnded id later
      × (heartbeat node id beats now later ≡ (false, later))
      × ((end_session node id now later).0 ≡ false)
unfolding heartbeat end_session
end_is_final cipher hash id db qs node beats now h =
    let k = run-IsEnded cipher hash id db qs h in
    let miss = not_hit id node (run cipher hash db qs).sessions k.1 in (k, rw miss, miss)

-- Byte by byte counts: the same rows in the same order, and no count fallen.
abbrev pub NotFallen : List SessionDestination → List SessionDestination → Type 0
NotFallen [] [] = Unit
NotFallen (r ∷ rs) (r' ∷ rs') =
    ((r'.session_id ≡ r.session_id)
      × (r'.destination_id ≡ r.destination_id)
      × (r.outbound_bytes ≤ r'.outbound_bytes))
    × NotFallen rs rs'
NotFallen _ _ = ⊥

NotFallen-refl : (rs : List SessionDestination) → NotFallen rs rs
NotFallen-refl [] = tt
NotFallen-refl (r ∷ rs) = ((refl, refl, omega arith), NotFallen-refl rs)

NotFallen-trans :
    (rs ss ts : List SessionDestination) → NotFallen rs ss → NotFallen ss ts → NotFallen rs ts
NotFallen-trans [] [] [] h k = tt
NotFallen-trans (r ∷ rs) (s ∷ ss) (t ∷ ts) h k =
    ((k.0.0 ∙ h.0.0, k.0.1 ∙ h.0.1, omega (arith, h.0.2, k.0.2)), NotFallen-trans rs ss ts h.1 k.1)
NotFallen-trans [] [] (t ∷ ts) h k = absurd k
NotFallen-trans [] (s ∷ ss) ts h k = absurd h
NotFallen-trans (r ∷ rs) [] ts h k = absurd h
NotFallen-trans (r ∷ rs) (s ∷ ss) [] h k = absurd k

report-NotFallen :
    (now id : ℕ) (b : Beat) (rs : List SessionDestination) → NotFallen rs (map (report now id b) rs)
report-NotFallen now id b [] = tt
report-NotFallen now id b (r ∷ rs) = ground (arith, report-NotFallen now id b rs)

reports-NotFallen :
    (now id : ℕ) (bs : List Beat) (rs : List SessionDestination)
    → NotFallen rs (reports now id bs rs)
reports-NotFallen now id [] rs = NotFallen-refl rs
reports-NotFallen now id (b ∷ bs) rs =
    NotFallen-trans rs (map (report now id b) rs) (reports now id bs (map (report now id b) rs))
      (report-NotFallen now id b rs) (reports-NotFallen now id bs (map (report now id b) rs))

-- A heartbeat is answered with true exactly when the node has a session under that id that has not
-- ended, and otherwise changes nothing. In both cases the rows of the destinations stay the same
-- rows, and no count of outbound bytes falls, whatever the node reports.
pub heartbeat-NotFallen :
    (node : Text) (id : ℕ) (beats : List Beat) (now : ℕ) (db : Db)
    → NotFallen db.session_destinations (heartbeat node id beats now db).1.session_destinations
      × ((heartbeat node id beats now db).0 ≡ anyb (is_hit node id) db.sessions)
      × (((heartbeat node id beats now db).0 ≡ true) ⊎ ((heartbeat node id beats now db).1 ≡ db))
unfolding heartbeat
heartbeat-NotFallen node id beats now db = elim (Bool-cases (anyb (is_hit node id) db.sessions)) [
  | inl e ↦
      rw (e, heartbeat) (reports-NotFallen now id beats db.session_destinations, refl, inl refl)
  | inr e ↦ rw (e, heartbeat) (NotFallen-refl db.session_destinations, refl, inr refl)
]
