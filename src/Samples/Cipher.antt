-- ===== src/Samples/Cipher.antt =====
-- A cipher that only pads, for the tests of the license.
use agility_contest_serial_c.Base.{
  ℕ, zero, suc, ◌≤◌, ◌≡◌, refl, ap, some, none, [], ◌∷◌, ◌++◌, Text, codes, take, length,
  length-append, arith,
}
use agility_contest_serial_c.License.Decrypt.{Crypto}
use agility_contest_serial_c.License.Decrypt.Chunks.{Encrypts}

-- chunks of 16 bytes: a length, the text and zeros
abbrev pub zeros : Text
zeros = 0 ∷ 0 ∷ 0 ∷ 0 ∷ 0 ∷ 0 ∷ 0 ∷ 0 ∷ 0 ∷ 0 ∷ 0 ∷ 0 ∷ 0 ∷ 0 ∷ 0 ∷ []

abbrev pub pad : Text → Text
pad m = length m ∷ take 15 (m ++ zeros)

abbrev pub crypto : Crypto
crypto = record {
  hmac = λ key m. key ++ m;
  aes_decrypt = λ key iv m. m;
  rsa_size = 16;
  rsa_public_decrypt = λ s. elim s [ [] ↦ none | n ∷ t ↦ some (take n t) ];
}

length-take-all : (n : ℕ) (s : Text) → n ≤ length s → length (take n s) ≡ n
length-take-all zero s h = omega arith
length-take-all (suc n) [] h = absurd (omega arith)
length-take-all (suc n) (c ∷ s) h = omega (arith, length-take-all n s (omega arith))

take-take : (k : ℕ) (m t : Text) → length m ≤ k → take (length m) (take k (m ++ t)) ≡ m
take-take k [] t h = refl
take-take zero (c ∷ m) t h = absurd (omega arith)
take-take (suc k) (c ∷ m) t h = ap (λ (s : Text). c ∷ s) (take-take k m t (omega arith))

pub pad-Encrypts : Encrypts crypto pad (λ key iv m. m)
pad-Encrypts = record {
  size_encrypt =
      λ m. omega (arith, length-take-all 15 (m ++ zeros) (omega (arith, length-append m zeros)));
  decrypt_encrypt = λ m h. ap some (take-take 15 m zeros (omega arith));
  aes_decrypt_encrypt = λ key iv m. refl;
}

abbrev pub hash : Text
hash = codes "01234567890123456789012345678901"
