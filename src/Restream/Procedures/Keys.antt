-- ===== src/Restream/Procedures/Keys.antt =====
-- The keys and the URLs that the procedures store, and what a media node is told of them
-- (apps/web/src/server/api/trpc/restream.ts, apps/web/src/server/restream/store.ts).
use streambrew.Base.{
  ℕ, ◌≡◌, ◌≢◌, refl, inl, inr, Bool, true, false, not, List, [], ◌∷◌, map, Text, Option, none, some,
  length, suc, leb, ◌&&◌, ◌||◌, filterb, anyb, ◌==◌, if◌then◌else◌, Bool-cases, All, All-filterb,
  Result, ok, err, ◌>>=◌, to_well_formed,
}
use streambrew.Restream.Tables.{
  Platform, Destination, DestinationInput, StoreError, Cipher, constraint_violated,
  destination_not_found, destination_limit, max_destinations,
}
use streambrew.Restream.Destinations.{
  rows, stream_key_hint, new_destination, hits, occupied, insert_destination, create_destination,
  update_hits, update_checked, row_check, update_destination, move_to, place, renumber,
  delete_destination,
}
use streambrew.Restream.Sessions.{Db}
use streambrew.Restream.Credentials.{Aead, credential_cipher}
use streambrew.Restream.Credentials.Envelope.{IsNonce, IsString, IsAead, decrypt-encrypt}
use streambrew.Restream.Procedures.{
  Services, Drawn, Call, create, update, enable, delete, rotate, with_destinations, unless_thrown,
}

-- The stored key is one that was given, not empty, with U+FFFD for each surrogate in it that is not
-- half of a pair, and the hint is the end of the given one.
pub record KeyFits (cipher : Cipher) (d : Destination) : Type 0 where
  pub key : Text
  pub reads : cipher.decrypt d.stream_key_ciphertext ≡ some (to_well_formed key)
  pub nonempty : key ≢ []
  pub hint : d.stream_key_hint ≡ stream_key_hint key

-- What the random source and the schemas give: nonces of 12 bytes, and keys that are strings and not
-- empty.
abbrev pub IsKey : Drawn → Option Text → Type 0
IsKey drawn none = Unit
IsKey drawn (some key) = IsNonce drawn.nonce × (key ≢ []) × IsString key

abbrev pub IsCall : Call → Type 0
IsCall (create drawn u input) =
    IsNonce drawn.nonce × (input.stream_key ≢ []) × IsString input.stream_key
IsCall (update drawn u id platform label server_url key) = IsKey drawn key
IsCall (enable drawn u id enabled) = Unit
IsCall (delete u id) = Unit
IsCall (rotate drawn u key) = Unit

reads-back :
    (aead : Aead) (nonce : List ℕ) (key : Text)
    → IsAead aead
    → IsNonce nonce
    → key ≢ []
    → IsString key
    → (credential_cipher aead).decrypt ((credential_cipher aead).encrypt nonce key)
      ≡ some (to_well_formed key)
reads-back aead nonce [] h n full string = absurd (full refl)
reads-back aead nonce (c ∷ s) h n full string = decrypt-encrypt aead nonce c s h n string

-- What holds of the rows after an operation that succeeds.
abbrev AllOk : (Destination → Type 0) → Result StoreError (List Destination) → Type 0
AllOk P (ok ds) = All P ds
AllOk P (err reason) = Unit

module _ (P : Destination → Type 0) where
  guarded-All :
      (b : Bool) (reason : StoreError) (ds : List Destination)
      → All P ds
      → AllOk P (if b then err reason else ok ds)
  guarded-All true reason ds h = tt
  guarded-All false reason ds h = h

  either-All :
      (b : Bool) (r s : Result StoreError (List Destination))
      → AllOk P r
      → AllOk P s
      → AllOk P (if b then r else s)
  either-All true r s h k = h
  either-All false r s h k = k

  chain-All :
      (r : Result StoreError (List Destination))
      (next : List Destination → Result StoreError (List Destination))
      → AllOk P r
      → ((ds : List Destination) → All P ds → AllOk P (next ds))
      → AllOk P (r >>= next)
  chain-All (ok ds) next h k = k ds h
  chain-All (err reason) next h k = tt

  pub update_hits-All :
      (u id : ℕ) (f : Destination → Destination) (ds : List Destination)
      → ((d : Destination) → P d → P (f d))
      → All P ds
      → AllOk P (update_hits u id f ds)
  update_hits-All u id f ds keeps h = elim (Bool-cases (anyb (hits u id) ds)) [
    | inl e ↦ rw e (each ds h)
    | inr e ↦ rw e tt
  ]
    where
      each :
          (ds : List Destination) → All P ds → All P (map (λ d. if hits u id d then f d else d) ds)
      each [] k = tt
      each (d ∷ ds) k = elim (Bool-cases (hits u id d)) [
        | inl e ↦ rw e (keeps d k.0, each ds k.1)
        | inr e ↦ rw e (k.0, each ds k.1)
      ]

  pub update_checked-All :
      (u id : ℕ) (f : Destination → Destination) (ds : List Destination)
      → ((d : Destination) → P d → P (f d))
      → All P ds
      → AllOk P (update_checked u id f ds)
  unfolding update_checked
  update_checked-All u id f ds keeps h =
      either-All (anyb (λ d. hits u id d && not (row_check (f d))) ds) (err constraint_violated)
        (update_hits u id f ds) tt (update_hits-All u id f ds keeps h)

  insert_destination-All :
      (d : Destination) (ds : List Destination) → P d → All P ds → AllOk P (insert_destination d ds)
  unfolding insert_destination
  insert_destination-All d ds p h =
      guarded-All
        (not (row_check d)
          || (anyb (λ e. e.destination_id == d.destination_id) ds
              || (occupied d.user_id d.destination_id d.position ds
                  || leb max_destinations d.position)))
        constraint_violated (d ∷ ds) (p, h)

-- A property that does not speak of places.
module _ (P : Destination → Type 0)
    (moves : (id p : ℕ) (d : Destination) → P d → P (move_to id p d)) where
  moved : (id p : ℕ) (ds : List Destination) → All P ds → All P (map (move_to id p) ds)
  moved id p [] h = tt
  moved id p (d ∷ ds) h = (moves id p d h.0, moved id p ds h.1)

  place-All : (id p : ℕ) (ds : List Destination) → All P ds → AllOk P (place id p ds)
  unfolding place
  place-All id p ds h =
      guarded-All P
        (anyb (λ d. d.destination_id == id && occupied d.user_id id p ds) ds
          || leb max_destinations p)
        constraint_violated (map (move_to id p) ds) (moved id p ds h)

  renumber-All : (i : ℕ) (left ds : List Destination) → All P ds → AllOk P (renumber i left ds)
  unfolding renumber
  renumber-All i [] ds h = h
  renumber-All i (d ∷ left) ds h =
      chain-All P (if d.position == i then ok ds else place d.destination_id i ds)
        (renumber (suc i) left)
        (either-All P (d.position == i) (ok ds) (place d.destination_id i ds) h
          (place-All d.destination_id i ds h))
        (renumber-All (suc i) left)

  pub delete_destination-All :
      (u id : ℕ) (ds : List Destination) → All P ds → AllOk P (delete_destination u id ds)
  unfolding delete_destination
  delete_destination-All u id ds h =
      let left : List Destination = filterb (λ d. not (hits u id d)) ds in
      either-All P (anyb (hits u id) ds) (renumber 0 (rows u left) left) (err destination_not_found)
        (renumber-All 0 (rows u left) left (All-filterb P (λ d. not (hits u id d)) ds h)) tt

module _ (services : Services) (fits : IsAead services.aead) where
  abbrev pub cipher : Cipher
  cipher = credential_cipher services.aead

  pub move-KeyFits :
      (id p : ℕ) (d : Destination) → KeyFits cipher d → KeyFits cipher (move_to id p d)
  move-KeyFits id p d h = elim (Bool-cases (d.destination_id == id)) [
    | inl e ↦ rw e (record { key = h.key; reads = h.reads; nonempty = h.nonempty; hint = h.hint })
    | inr e ↦ rw e h
  ]

  pub unless_thrown-All :
      (db : Db) (r : Result StoreError (List Destination))
      → All (KeyFits cipher) db.destinations
      → AllOk (KeyFits cipher) r
      → All (KeyFits cipher) (unless_thrown db (with_destinations db r)).destinations
  unless_thrown-All db (ok ds) h k = k
  unless_thrown-All db (err reason) h k = h

  pub create-KeyFits :
      (drawn : Drawn) (u : ℕ) (input : DestinationInput) (ds : List Destination)
      → IsNonce drawn.nonce
      → input.stream_key ≢ []
      → IsString input.stream_key
      → All (KeyFits cipher) ds
      → AllOk
          (KeyFits cipher)
          (create_destination cipher drawn.nonce drawn.new_id drawn.now u input ds)
  unfolding create_destination new_destination
  create-KeyFits drawn u input ds n full string h =
      let count : ℕ = length (filterb (λ d. d.user_id == u) ds) in
      either-All (KeyFits cipher) (leb max_destinations count) (err destination_limit)
        (insert_destination _ ds) tt
        (insert_destination-All (KeyFits cipher) _ ds
          (record {
            key = input.stream_key;
            reads = reads-back services.aead drawn.nonce input.stream_key fits n full string;
            nonempty = full;
            hint = refl;
          })
          h)

  pub update-KeyFits :
      (drawn : Drawn) (u id : ℕ) (platform : Platform) (label url : Text) (key : Option Text)
      (ds : List Destination)
      → IsKey drawn key
      → All (KeyFits cipher) ds
      → AllOk
          (KeyFits cipher)
          (update_destination cipher drawn.nonce drawn.now u id platform label url key ds)
  unfolding update_destination
  update-KeyFits drawn u id platform label url none ds call h =
      update_checked-All (KeyFits cipher) u id _ ds
        (λ d k. record { key = k.key; reads = k.reads; nonempty = k.nonempty; hint = k.hint }) h
  update-KeyFits drawn u id platform label url (some key) ds call h =
      update_checked-All (KeyFits cipher) u id _ ds
        (λ d k. record {
          key = key;
          reads = reads-back services.aead drawn.nonce key fits call.0 call.1 call.2;
          nonempty = call.1;
          hint = refl;
        })
        h
