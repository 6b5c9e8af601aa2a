-- ===== src/Restream/Destinations.antt =====
-- RestreamStore's operations on restream_destination (apps/web/src/server/restream/store.ts).
-- Each takes the table and returns the new one, or the error that rolls the transaction back.
pub mod Invariant
pub mod Place
pub mod Renumber
pub mod Laws
pub mod Edits
use streambrew.Base.{
  label_check, is_storable, char_length, starts_with, codes, ℕ, suc, ◌-◌, Bool, true, not, ◌&&◌,
  ◌||◌, List, [], ◌∷◌, map, Text, Option, none, some, length, drop, anyb, filterb, order_by, ◌==◌,
  leb, if◌then◌else◌, Result, ok, err, ◌>>=◌,
}
use streambrew.Restream.Tables.{
  Platform, Destination, Cipher, DestinationInput, StoreError, destination_limit,
  destination_not_found, constraint_violated, max_destinations,
}

-- WHERE user_id = u ORDER BY "position"
unfoldable pub rows : ℕ → List Destination → List Destination
rows u ds = order_by (λ d. d.position) (filterb (λ d. d.user_id == u) ds)

-- streamKey.slice(-4)
unfoldable pub stream_key_hint : Text → Text
stream_key_hint key = drop (length key - 4) key

-- WHERE restream_destination_id = id AND user_id = u
abbrev pub hits : ℕ → ℕ → Destination → Bool
hits u id d = d.destination_id == id && d.user_id == u

-- Another row than `id` holds place `p` of the user, against UNIQUE (user_id, "position").
abbrev pub occupied : ℕ → ℕ → ℕ → List Destination → Bool
occupied u id p = anyb (λ d. d.user_id == u && (d.position == p && not (d.destination_id == id)))

-- The CHECKs of a row, but for that on the position. The database takes no U+0000.
unfoldable pub row_check : Destination → Bool
row_check d =
    label_check d.label
    && ((is_storable d.server_url
          && ((leb 10 (char_length d.server_url) && leb (char_length d.server_url) 2048)
              && ((starts_with d.server_url (codes "rtmp://")
                    || starts_with d.server_url (codes "rtmps://"))
                  && not (anyb (λ c. c == b'#') d.server_url))))
        && ((leb 30 (length d.stream_key_ciphertext) && leb (length d.stream_key_ciphertext) 2048)
            && (is_storable d.stream_key_hint
                && (leb 1 (char_length d.stream_key_hint)
                    && leb (char_length d.stream_key_hint) 8))))

-- INSERT under the CHECKs, the primary key, the unique position and the bound on it.
unfoldable pub insert_destination :
    Destination → List Destination → Result StoreError (List Destination)
insert_destination d ds =
    if not (row_check d)
      || (anyb (λ e. e.destination_id == d.destination_id) ds
          || (occupied d.user_id d.destination_id d.position ds || leb max_destinations d.position))
    then err constraint_violated
    else ok (d ∷ ds)

-- The row of an input, at the place behind the user's others.
unfoldable pub new_destination : Cipher → List ℕ → ℕ → ℕ → ℕ → ℕ → DestinationInput → Destination
new_destination cipher nonce new_id now u count input = record {
  destination_id = new_id;
  user_id = u;
  platform = input.platform;
  label = input.label;
  server_url = input.server_url;
  stream_key_ciphertext = cipher.encrypt nonce input.stream_key;
  stream_key_hint = stream_key_hint input.stream_key;
  enabled = true;
  position = count;
  updated_at = now;
}

unfoldable pub create_destination :
    Cipher
    → List ℕ
    → ℕ
    → ℕ
    → ℕ
    → DestinationInput
    → List Destination
    → Result StoreError (List Destination)
unfolding new_destination
create_destination cipher nonce new_id now u input ds =
    let count : ℕ = length (filterb (λ d. d.user_id == u) ds) in
    if leb max_destinations count
    then err destination_limit
    else insert_destination (new_destination cipher nonce new_id now u count input) ds

-- UPDATE … WHERE restream_destination_id = id AND user_id = u; no row hit is the error. The columns
-- that `setDestinationEnabled` sets have no CHECK.
abbrev pub update_hits :
    ℕ → ℕ → (Destination → Destination) → List Destination → Result StoreError (List Destination)
update_hits u id f ds =
    if anyb (hits u id) ds
    then ok (map (λ d. if hits u id d then f d else d) ds)
    else err destination_not_found

-- The same under the CHECKs of the new rows.
unfoldable pub update_checked :
    ℕ → ℕ → (Destination → Destination) → List Destination → Result StoreError (List Destination)
update_checked u id f ds =
    if anyb (λ d. hits u id d && not (row_check (f d))) ds
    then err constraint_violated
    else update_hits u id f ds

abbrev pub new_key : Cipher → List ℕ → Option Text → Destination → Destination
new_key cipher nonce none d = d
new_key cipher nonce (some key) d = record d {
  stream_key_ciphertext = cipher.encrypt nonce key;
  stream_key_hint = stream_key_hint key;
}

-- The stream key of the input is optional here, so it is an argument of its own.
unfoldable pub update_destination :
    Cipher
    → List ℕ
    → ℕ
    → ℕ
    → ℕ
    → Platform
    → Text
    → Text
    → Option Text
    → List Destination
    → Result StoreError (List Destination)
unfolding stream_key_hint
update_destination cipher nonce now u id platform label server_url key ds =
    update_checked u id
      (λ d. new_key cipher nonce key (record d {
        platform = platform;
        label = label;
        server_url = server_url;
        updated_at = now;
      }))
      ds

unfoldable pub set_destination_enabled :
    ℕ → ℕ → ℕ → Bool → List Destination → Result StoreError (List Destination)
set_destination_enabled now u id enabled ds =
    update_hits u id (λ d. record d { enabled = enabled; updated_at = now }) ds

abbrev pub move_to : ℕ → ℕ → Destination → Destination
move_to id p d = if d.destination_id == id then record d { position = p } else d

-- UPDATE … SET "position" = p WHERE restream_destination_id = id, under the constraints, which the
-- database tests at once.
unfoldable pub place : ℕ → ℕ → List Destination → Result StoreError (List Destination)
place id p ds =
    if anyb (λ d. d.destination_id == id && occupied d.user_id id p ds) ds || leb max_destinations p
    then err constraint_violated
    else ok (map (move_to id p) ds)

-- The loop of `deleteDestination` over the rows that are left, with their index.
unfoldable pub renumber :
    ℕ → List Destination → List Destination → Result StoreError (List Destination)
renumber i [] ds = ok ds
renumber i (d ∷ rest) ds =
    (if d.position == i then ok ds else place d.destination_id i ds) >>= λ ds'.
    renumber (suc i) rest ds'

unfoldable pub delete_destination : ℕ → ℕ → List Destination → Result StoreError (List Destination)
delete_destination u id ds =
    if anyb (hits u id) ds
    then (let left : List Destination = filterb (λ d. not (hits u id d)) ds in
        renumber 0 (rows u left) left)
    else err destination_not_found
