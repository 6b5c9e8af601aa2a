-- ===== src/Restream/Tests.antt =====
-- Examples of the restream tables (apps/web/src/server/restream/store.ts).
use streambrew.Base.{
  codes, Text, none, ◌<◌, ℕ, ◌≡◌, refl, ◌⊎◌, inl, inr, true, false, not, List, [], ◌∷◌, ◌++◌, some,
  arith, length, anyb, filterb, ◌==◌, Bool-cases, if◌then◌else◌, ok, err,
}
use streambrew.Restream.Tables.{
  max_destinations, twitch, youtube, Destination, Cipher, DestinationInput, destination_limit,
  destination_not_found, constraint_violated,
}
use streambrew.Restream.Destinations.{
  row_check, new_destination, stream_key_hint, update_checked, rows, hits, create_destination,
  update_destination, delete_destination,
}
use streambrew.Restream.Destinations.Invariant.{IsValid}
use streambrew.Restream.Destinations.Renumber.{renumbered}
use streambrew.Restream.Destinations.Laws.{delete_destination-renumbers, create_destination_appends}
use streambrew.Restream.Destinations.Edits.{Edits, edited, refused, update_destination-Edits}

abbrev plain_cipher : Cipher
plain_cipher = record { encrypt = λ nonce key. nonce ++ key; decrypt = λ bytes. some bytes }

abbrev nonce : List ℕ
nonce = codes "abcdefghijklmnopqrstuvwxy"

abbrev destination : ℕ → ℕ → Destination
destination id place = record {
  destination_id = id;
  user_id = 7;
  platform = twitch;
  label = b'a' ∷ [];
  server_url = codes "rtmp://host/app";
  stream_key_ciphertext = nonce ++ codes "old k";
  stream_key_hint = b'k' ∷ [];
  enabled = true;
  position = place;
  updated_at = 100;
}

abbrev two : List Destination
two = destination 11 1 ∷ destination 10 0 ∷ []

two-IsValid : IsValid two
unfolding rows
two-IsValid = record {
  unique = ((omega arith, tt), (tt, tt));
  numbered = λ u. elim (Bool-cases (7 == u)) [ inl e ↦ rw e (refl, (refl, tt)) | inr e ↦ rw e tt ];
  bounded =
      λ u. elim (Bool-cases (7 == u)) [ inl e ↦ rw e (omega arith) | inr e ↦ rw e (omega arith) ];
}

delete_destination-renumbers_example :
    (ds' : List Destination) × (delete_destination 7 10 two ≡ ok ds')
    × ((v : ℕ)
        → rows v ds' ≡ (
            if v == 7
            then renumbered 0 (filterb (λ d. not (hits 7 10 d)) (rows 7 two))
            else rows v two))
    × IsValid ds'
delete_destination-renumbers_example = delete_destination-renumbers 7 10 two two-IsValid refl

abbrev new_input : DestinationInput
new_input = record {
  platform = youtube;
  label = b'b' ∷ [];
  server_url = codes "rtmps://host/live";
  stream_key = b'1' ∷ b'2' ∷ b'3' ∷ b'4' ∷ b'5' ∷ [];
}

created : row_check (new_destination plain_cipher nonce 12 200 7 2 new_input) ≡ true
unfolding row_check new_destination stream_key_hint
created = refl

create_destination_appends_example :
    let d : Destination = new_destination plain_cipher nonce 12 200 7 2 new_input in
    let after = create_destination plain_cipher nonce 12 200 7 new_input two in
    ((length (rows 7 two) ≡ max_destinations) × (after ≡ err destination_limit))
    ⊎ ((length (rows 7 two) < max_destinations)
        × (((row_check d ≡ false) × (after ≡ err constraint_violated))
            ⊎ ((row_check d ≡ true)
                × ((ds' : List Destination) × (after ≡ ok ds')
                    × ((v : ℕ) → rows v ds' ≡ (if v == 7 then rows 7 two ++ d ∷ [] else rows v two))
                    × (d.destination_id ≡ 12)
                    × (d.enabled ≡ true)
                    × (d.stream_key_ciphertext ≡ plain_cipher.encrypt nonce new_input.stream_key)
                    × IsValid ds'))))
unfolding rows
create_destination_appends_example =
    create_destination_appends plain_cipher nonce 12 200 7 new_input two two-IsValid refl

-- An empty label is refused, and a good update is not.
empty_label :
    update_destination plain_cipher nonce 200 7 11 youtube [] (codes "rtmp://host/b") none two
    ≡ err constraint_violated
unfolding update_destination update_checked row_check
empty_label = refl

abbrev digits : Text
digits = codes "12345"

good_update :
    refused 7 11
      (edited plain_cipher nonce 200 youtube (codes "b") (codes "rtmp://host/b") (some digits))
      two
    ≡ false
unfolding row_check stream_key_hint
good_update = refl

update_destination-Edits_example :
    let f =
      edited plain_cipher nonce 200 youtube (codes "b") (codes "rtmp://host/b") (some digits) in
    let after =
      update_destination plain_cipher nonce 200 7 11 youtube
        (codes "b")
        (codes "rtmp://host/b")
        (some digits)
        two in
    ((anyb (hits 7 11) two ≡ false) × (after ≡ err destination_not_found))
    ⊎ (((refused 7 11 f two ≡ true) × (after ≡ err constraint_violated))
        ⊎ ((refused 7 11 f two ≡ false)
            × ((ds' : List Destination) × (after ≡ ok ds') × Edits 7 11 f two ds')))
update_destination-Edits_example =
    update_destination-Edits plain_cipher nonce 200 7 11 youtube (codes "b") (codes "rtmp://host/b")
      (some digits) two two-IsValid
