-- ===== src/Restream/Credentials/Envelope.antt =====
-- A stored stream key reads back (apps/web/src/server/restream/credential-cipher.ts).
use streambrew.Base.{
  ℕ, zero, suc, ◌+◌, ◌≡◌, ◌∙◌, refl, ap, false, List, [], ◌∷◌, ◌++◌, Text, some, arith, length,
  length-append, take, drop, ltb, leb, allb, true, to_well_formed,
}
use streambrew.Restream.Credentials.{Aead, encrypt, decrypt, plaintext_of, credential_cipher}

-- The code units of a string.
abbrev pub IsString : Text → Type 0
IsString s = allb (λ c. leb c 0xffff) s ≡ true

abbrev pub IsBytes : List ℕ → Type 0
IsBytes bytes = allb (λ b. leb b 0xff) bytes ≡ true

abbrev pub IsNonce : List ℕ → Type 0
IsNonce nonce = (length nonce ≡ 12) × IsBytes nonce

-- What is documented of AES-256-GCM with a nonce of 12 bytes and a tag of 16, and of UTF-8, in which a
-- surrogate that is not half of a pair is written as U+FFFD.
pub record IsAead (aead : Aead) : Type 0 where
  pub tag :
      (nonce plaintext : List ℕ)
      → IsNonce nonce
      → IsBytes plaintext
      → length (aead.seal nonce plaintext).tag ≡ 16
  pub unsealed :
      (nonce plaintext : List ℕ)
      → IsNonce nonce
      → IsBytes plaintext
      → aead.unseal nonce (aead.seal nonce plaintext) ≡ some plaintext
  pub bytes : (value : Text) → IsString value → IsBytes (aead.to_utf8 value)
  pub utf8 :
      (value : Text) → IsString value → aead.from_utf8 (aead.to_utf8 value) ≡ to_well_formed value

take-append : (xs ys : List ℕ) (n : ℕ) → length xs ≡ n → take n (xs ++ ys) ≡ xs
take-append [] ys zero h = refl
take-append [] ys (suc n) h = absurd (omega (arith, h))
take-append (x ∷ xs) ys zero h = absurd (omega (arith, h))
take-append (x ∷ xs) ys (suc n) h = ap (λ zs. x ∷ zs) (take-append xs ys n (omega (arith, h)))

drop-append : (xs ys : List ℕ) (n m : ℕ) → length xs ≡ n → drop (n + m) (xs ++ ys) ≡ drop m ys
drop-append [] ys zero m h = let e : 0 + m ≡ m = omega arith in rw e refl
drop-append [] ys (suc n) m h = absurd (omega (arith, h))
drop-append (x ∷ xs) ys zero m h = absurd (omega (arith, h))
drop-append (x ∷ xs) ys (suc n) m h =
    let e : suc n + m ≡ suc (n + m) = omega arith in rw e (drop-append xs ys n m (omega (arith, h)))

-- A key that is not empty, stored under a nonce of 12 bytes, reads back as itself, except that U+FFFD
-- stands for each surrogate in it that is not half of a pair.
pub decrypt-encrypt :
    (aead : Aead) (nonce : List ℕ) (c : ℕ) (s : Text)
    → IsAead aead
    → IsNonce nonce
    → IsString (c ∷ s)
    → (credential_cipher aead).decrypt ((credential_cipher aead).encrypt nonce (c ∷ s))
      ≡ some (to_well_formed (c ∷ s))
unfolding encrypt decrypt
decrypt-encrypt aead nonce c s h (n, b) string =
    let utf8 = h.bytes (c ∷ s) string in
    let sealed = aead.seal nonce (aead.to_utf8 (c ∷ s)) in
    let t = h.tag nonce (aead.to_utf8 (c ∷ s)) (n, b) utf8 in
    let rest = sealed.tag ++ sealed.ciphertext in
    let envelope : List ℕ = encrypt aead nonce (c ∷ s) in
    let long : ltb (length envelope) 29 ≡ false =
      ground (arith, n, t, length-append nonce rest, length-append sealed.tag sealed.ciphertext) in
    let its_nonce : take 12 (drop 1 envelope) ≡ nonce = take-append nonce rest 12 n in
    let its_tag : take 16 (drop 13 envelope) ≡ sealed.tag =
      ap (take 16) (drop-append nonce rest 12 0 n)
      ∙ take-append sealed.tag sealed.ciphertext 16 t in
    let its_text : drop 29 envelope ≡ sealed.ciphertext =
      drop-append nonce rest 12 16 n ∙ drop-append sealed.tag sealed.ciphertext 16 0 t in
    rw
      (
        long,
        its_nonce,
        its_tag,
        its_text,
        h.unsealed nonce (aead.to_utf8 (c ∷ s)) (n, b) utf8,
        plaintext_of,
        h.utf8 (c ∷ s) string,
      )
      refl
