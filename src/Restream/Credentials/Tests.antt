-- ===== src/Restream/Credentials/Tests.antt =====
-- Examples of the envelope (apps/web/src/server/restream/credential-cipher.ts), with a cipher that
-- hides nothing.
use streambrew.Base.{
  Text, ◌≡◌, refl, ap, ◌+◌, ◌*◌, ◌/◌, ◌%◌, arith, ℕ, List, [], ◌∷◌, ◌++◌, codes, none, some,
  to_well_formed,
}
use streambrew.Restream.Credentials.{Aead, encrypt, decrypt, credential_cipher}
use streambrew.Restream.Credentials.Envelope.{IsString, IsBytes, IsAead, decrypt-encrypt}

abbrev sixteen : List ℕ
sixteen = 1 ∷ 2 ∷ 3 ∷ 4 ∷ 5 ∷ 6 ∷ 7 ∷ 8 ∷ 9 ∷ 10 ∷ 11 ∷ 12 ∷ 13 ∷ 14 ∷ 15 ∷ 16 ∷ []

-- Two bytes of each code unit.
abbrev in_bytes : Text → List ℕ
in_bytes [] = []
in_bytes (c ∷ s) = (c / 256) ∷ (c % 256) ∷ in_bytes s

abbrev from_bytes : List ℕ → Text
from_bytes (a ∷ b ∷ bytes) = (a * 256 + b) ∷ from_bytes bytes
from_bytes _ = []

from_bytes-in_bytes : (s : Text) → from_bytes (in_bytes s) ≡ s
from_bytes-in_bytes [] = refl
from_bytes-in_bytes (c ∷ s) =
    let e : c / 256 * 256 + c % 256 ≡ c = omega arith in rw (e, from_bytes-in_bytes s) refl

in_bytes-IsBytes : (s : Text) → IsString s → IsBytes (in_bytes s)
in_bytes-IsBytes [] h = refl
in_bytes-IsBytes (c ∷ s) h = ground (arith, h, in_bytes-IsBytes s)

abbrev pub plain : Aead
plain = record {
  seal = λ nonce plaintext. record { tag = sixteen; ciphertext = plaintext };
  unseal = λ nonce sealed. some sealed.ciphertext;
  to_utf8 = in_bytes;
  from_utf8 = λ bytes. to_well_formed (from_bytes bytes);
}

abbrev pub nonce : List ℕ
nonce = 1 ∷ 2 ∷ 3 ∷ 4 ∷ 5 ∷ 6 ∷ 7 ∷ 8 ∷ 9 ∷ 10 ∷ 11 ∷ 12 ∷ []

-- A wrong version and an empty key do not read back.
wrong_version : decrypt plain (2 ∷ (nonce ++ (sixteen ++ codes "k"))) ≡ none
unfolding decrypt
wrong_version = refl

empty_key : decrypt plain (encrypt plain nonce []) ≡ none
unfolding decrypt encrypt
empty_key = refl

pub plain-IsAead : IsAead plain
plain-IsAead = record {
  tag = λ nonce plaintext n b. refl;
  unsealed = λ nonce plaintext n b. refl;
  bytes = in_bytes-IsBytes;
  utf8 = λ value string. ap to_well_formed (from_bytes-in_bytes value);
}

-- A lone surrogate is replaced, and a pair stays.
lone_surrogate :
    decrypt plain (encrypt plain nonce (0xd83d ∷ 0xde00 ∷ 0xd83d ∷ []))
    ≡ some (0xd83d ∷ 0xde00 ∷ 0xfffd ∷ [])
unfolding decrypt encrypt
lone_surrogate = refl

decrypt-encrypt_example :
    (credential_cipher plain).decrypt ((credential_cipher plain).encrypt nonce (codes "key"))
    ≡ some (to_well_formed (codes "key"))
decrypt-encrypt_example =
    decrypt-encrypt plain nonce b'k' (b'e' ∷ b'y' ∷ []) plain-IsAead (refl, refl) refl
