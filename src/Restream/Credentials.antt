-- ===== src/Restream/Credentials.antt =====
-- The envelope of a stored stream key (apps/web/src/server/restream/credential-cipher.ts). AES-256-GCM
-- under the key and the two directions of UTF-8 are parameters.
pub mod Envelope
pub mod Tests
use streambrew.Base.{
  ℕ, Bool, false, ◌||◌, not, List, [], ◌∷◌, ◌++◌, Text, Option, none, some, length, take, drop, ltb,
  ◌==◌, if◌then◌else◌,
}
use streambrew.Restream.Tables.{Cipher}

pub record Sealed : Type 0 where
  pub tag : List ℕ
  pub ciphertext : List ℕ

pub record Aead : Type 0 where
  pub seal : (nonce plaintext : List ℕ) → Sealed
  pub unseal : (nonce : List ℕ) → Sealed → Option (List ℕ)
  pub to_utf8 : Text → List ℕ
  pub from_utf8 : List ℕ → Text

abbrev pub envelope_version : ℕ
envelope_version = 1

abbrev pub nonce_bytes : ℕ
nonce_bytes = 12

abbrev pub tag_bytes : ℕ
tag_bytes = 16

unfoldable pub encrypt : Aead → List ℕ → Text → List ℕ
encrypt aead nonce value =
    let sealed = aead.seal nonce (aead.to_utf8 value) in
    envelope_version ∷ (nonce ++ (sealed.tag ++ sealed.ciphertext))

abbrev pub has_version : List ℕ → Bool
has_version [] = false
has_version (b ∷ bs) = b == envelope_version

-- An empty credential is an error.
abbrev pub plaintext_of : Aead → Option (List ℕ) → Option Text
plaintext_of aead none = none
plaintext_of aead (some bytes) = elim (aead.from_utf8 bytes) [ [] ↦ none | c ∷ s ↦ some (c ∷ s) ]

unfoldable pub decrypt : Aead → List ℕ → Option Text
decrypt aead envelope =
    if ltb (length envelope) 29 || not (has_version envelope)
    then none
    else plaintext_of aead (
        aead.unseal (take 12 (drop 1 envelope))
          (record { tag = take 16 (drop 13 envelope); ciphertext = drop 29 envelope }))

-- What the stores take.
abbrev pub credential_cipher : Aead → Cipher
credential_cipher aead = record { encrypt = encrypt aead; decrypt = decrypt aead }
