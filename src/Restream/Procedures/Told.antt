-- ===== src/Restream/Procedures/Told.antt =====
-- What a media node is told after any calls of the API (apps/web/src/server/api/trpc/restream.ts,
-- apps/web/src/server/restream/store.ts).
use streambrew.Base.{
  ℕ, ◌≡◌, ◌≢◌, refl, inl, inr, not, ◌&&◌, ◌||◌, to_well_formed, List, [], ◌∷◌, ◌++◌, Text, text_eq,
  some, anyb, filterb, ◌==◌, Bool-cases, Option-cases, All, All-filterb, All-order_by, ok,
}
use streambrew.Restream.Tables.{Destination, Cipher}
use streambrew.Restream.Destinations.{set_destination_enabled}
use streambrew.Restream.Sessions.{
  Db, new_ingest, ingest_check, rotate_ingest_key, Target, target_of, targets_of, enabled_rows,
}
use streambrew.Restream.Credentials.Envelope.{IsAead}
use streambrew.Restream.Credentials.{credential_cipher}
use streambrew.Restream.Target.{normalize_restream_server_url}
use streambrew.Restream.Procedures.{
  Services, Call, create, update, enable, delete, rotate, call_procedure, unless_thrown, call_run,
}
use streambrew.Restream.Procedures.Keys.{
  KeyFits, IsCall, update_hits-All, delete_destination-All, move-KeyFits, unless_thrown-All,
  create-KeyFits, update-KeyFits,
}

-- The targets are those of the rows, each with the row's key behind its URL.
abbrev pub AreTold : Cipher → List Destination → List Target → Type 0
AreTold cipher [] [] = Unit
AreTold cipher (d ∷ ds) (t ∷ ts) =
    ((t.destination_id ≡ d.destination_id)
      × ((key : Text) × (cipher.decrypt d.stream_key_ciphertext ≡ some key)
          × (key ≢ [])
          × (t.target_url ≡ d.server_url ++ b'#' ∷ key)))
    × AreTold cipher ds ts
AreTold cipher [] (t ∷ ts) = ⊥
AreTold cipher (d ∷ ds) [] = ⊥

well_formed_full : (key : Text) → key ≢ [] → to_well_formed key ≢ []
well_formed_full [] full = absurd (full refl)
well_formed_full (c ∷ key) full = λ e. cc e

targets_of-AreTold :
    (cipher : Cipher) (ds : List Destination)
    → All (KeyFits cipher) ds
    → (ts : List Target) × (targets_of cipher ds ≡ ok ts) × AreTold cipher ds ts
targets_of-AreTold cipher [] h = ([], refl, tt)
targets_of-AreTold cipher (d ∷ ds) h =
    let (ts, e, told) = targets_of-AreTold cipher ds h.1 in
    let reads = h.0.reads in
    (
      record {
        destination_id = d.destination_id;
        target_url = d.server_url ++ b'#' ∷ to_well_formed h.0.key;
      }
          ∷ ts,
      rw (reads, target_of, e) refl,
      ((refl, (to_well_formed h.0.key, reads, well_formed_full h.0.key h.0.nonempty, refl)), told),
    )

module _ (services : Services) (fits : IsAead services.aead) where
  abbrev AllFit : Db → Type 0
  AllFit db = All (KeyFits (credential_cipher services.aead)) db.destinations

  call-AllFit :
      (db : Db) (c : Call)
      → IsCall c
      → AllFit db
      → AllFit (unless_thrown db (call_procedure services db c))
  unfolding call_procedure set_destination_enabled rotate_ingest_key
  call-AllFit db (create drawn u input) call h =
      elim (Option-cases (normalize_restream_server_url services.library input.server_url)) [
        | inl bad ↦ rw (bad, call_procedure) h
        | inr (url, e) ↦
            rw (e, call_procedure)
              (unless_thrown-All services fits db _ h (
                create-KeyFits services fits drawn u (record input { server_url = url })
                  db.destinations call.0 call.1 call.2 h))
      ]
  call-AllFit db (update drawn u id platform label server_url key) call h =
      elim (Option-cases (normalize_restream_server_url services.library server_url)) [
        | inl bad ↦ rw (bad, call_procedure) h
        | inr (url, e) ↦
            rw (e, call_procedure)
              (unless_thrown-All services fits db _ h (
                update-KeyFits services fits drawn u id platform label url key db.destinations call
                  h))
      ]
  call-AllFit db (enable drawn u id enabled) call h = unless_thrown-All services fits db _ h (
      update_hits-All (KeyFits (credential_cipher services.aead)) u id _ db.destinations
        (λ d k. record { key = k.key; reads = k.reads; nonempty = k.nonempty; hint = k.hint }) h)
  call-AllFit db (delete u id) call h = unless_thrown-All services fits db _ h (
      delete_destination-All (KeyFits (credential_cipher services.aead))
        (move-KeyFits services fits) u id db.destinations h)
  call-AllFit db (rotate drawn u key) call h =
      elim (Bool-cases (
        not (
          ingest_check (
            new_ingest (credential_cipher services.aead) services.hash drawn.nonce drawn.now u key))
        || anyb (λ r. text_eq r.stream_key_hash (services.hash key) && not (r.user_id == u))
            db.ingests)) [
              | inl refused ↦ rw (refused, call_procedure, rotate_ingest_key) h
              | inr accepted ↦ rw (accepted, call_procedure, rotate_ingest_key) h
            ]

  run-AllFit :
      (db : Db) (cs : List Call) → All IsCall cs → AllFit db → AllFit (call_run services db cs)
  unfolding call_run
  run-AllFit db [] calls h = h
  run-AllFit db (c ∷ cs) calls h =
      run-AllFit (unless_thrown db (call_procedure services db c)) cs calls.1
        (call-AllFit db c calls.0 h)

-- Where the cipher is as it is documented, and at first every stored key reads back as one that was
-- given, not empty, with U+FFFD for each surrogate that is not half of a pair, and has the hint that is
-- the end of the given one: this holds after any calls of the API whose nonces are of 12 bytes and
-- whose keys are strings and not empty, and no decryption fails when a media node asks for the targets of a user.
-- They are then the user's enabled destinations, each with its key behind its URL.
pub calls_keep_keys :
    (services : Services) (db : Db) (cs : List Call) (u : ℕ)
    → IsAead services.aead
    → All IsCall cs
    → All (KeyFits (credential_cipher services.aead)) db.destinations
    → let cipher : Cipher = credential_cipher services.aead in
      let after : List Destination = (call_run services db cs).destinations in
      All (KeyFits cipher) after
      × ((ts : List Target) × (targets_of cipher (enabled_rows u after) ≡ ok ts)
          × AreTold cipher (enabled_rows u after) ts)
calls_keep_keys services db cs u fits calls h =
    let cipher : Cipher = credential_cipher services.aead in
    let after : List Destination = (call_run services db cs).destinations in
    let fit = run-AllFit services fits db cs calls h in
    (
      fit,
      targets_of-AreTold cipher (enabled_rows u after) (
          All-order_by (λ d. d.position) (KeyFits cipher)
            (filterb (λ d. d.user_id == u && d.enabled) after)
            (All-filterb (KeyFits cipher) (λ d. d.user_id == u && d.enabled) after fit)),
    )
