-- ===== src/License/Decrypt/Chunks.antt =====
-- The round trip of src/license.c: a license that was encrypted with the private key and the unique id is
-- decrypted to its text.
use native.Mathlib.Nat.{mul-div_cancel}
use agility_contest_serial_c.Base.{
  ℕ, zero, suc, ◌+◌, ◌*◌, ◌/◌, ◌≤◌, ◌<◌, ◌≡◌, refl, ◌∙◌, ap, sym, Bool, not, ◌&&◌, ◌==◌, true,
  false, some, List, [], ◌∷◌, ◌++◌, append_assoc, append-nil, ltb, leb, Text, codes, take, drop,
  length, length-append, map, All, done, arith,
}
use agility_contest_serial_c.Dispatch.{c_string}
use agility_contest_serial_c.License.Decrypt.{
  Crypto, hash_size, iv_size, decrypt_chunks, decrypt_message, decrypt_license,
}

abbrev pub joined : List Text → Text
joined [] = []
joined (s ∷ ss) = s ++ joined ss

-- no 0 among the bytes
abbrev pub is_string : Text → Bool
is_string [] = true
is_string (c ∷ s) = not (c == 0) && is_string s

c_string-is_string : (s : Text) → is_string s ≡ true → c_string s ≡ s
unfolding c_string
c_string-is_string [] h = refl
c_string-is_string (c ∷ s) h = ground (arith, c_string-is_string s)

take-at : (n : ℕ) (s t : Text) → length s ≡ n → take n (s ++ t) ≡ s
take-at zero [] t h = refl
take-at (suc n) [] t h = absurd (omega arith)
take-at zero (c ∷ s) t h = absurd (omega arith)
take-at (suc n) (c ∷ s) t h = ap (λ (r : Text). c ∷ r) (take-at n s t (omega arith))

drop-at : (n : ℕ) (s t : Text) → length s ≡ n → drop n (s ++ t) ≡ t
drop-at zero [] t h = refl
drop-at (suc n) [] t h = absurd (omega arith)
drop-at zero (c ∷ s) t h = absurd (omega arith)
drop-at (suc n) (c ∷ s) t h = drop-at n s t (omega arith)

-- PKCS1 padding takes 11 bytes of a chunk
abbrev pub padding : ℕ
padding = 11

-- What encrypts a license: RSA with the private key on a chunk, and AES with a key and an initial vector.
-- Decryption undoes both, and an encrypted chunk has the size of the key.
pub record Encrypts (crypto : Crypto) (rsa_private_encrypt : Text → Text)
    (aes_encrypt : Text → Text → Text → Text) : Type 0 where
  pub size_encrypt : (m : Text) → length (rsa_private_encrypt m) ≡ crypto.rsa_size
  pub decrypt_encrypt :
      (m : Text)
      → length m + padding ≤ crypto.rsa_size
      → crypto.rsa_public_decrypt (rsa_private_encrypt m) ≡ some m
  pub aes_decrypt_encrypt : (key iv m : Text) → crypto.aes_decrypt key iv (aes_encrypt key iv m) ≡ m

module _ (crypto : Crypto) (rsa_private_encrypt : Text → Text)
    (aes_encrypt : Text → Text → Text → Text)
    (e : Encrypts crypto rsa_private_encrypt aes_encrypt) where
  -- a part of the text that the key can encrypt
  abbrev pub IsChunk : Text → Type 0
  IsChunk m = length m + padding ≤ crypto.rsa_size

  abbrev pub encrypted : List Text → Text
  encrypted chunks = joined (map rsa_private_encrypt chunks)

  length-encrypted :
      (chunks : List Text) → length (encrypted chunks) ≡ length chunks * crypto.rsa_size
  length-encrypted [] = omega arith
  length-encrypted (m ∷ ms) =
      length-append (rsa_private_encrypt m) (encrypted ms)
      ∙ omega (arith, e.size_encrypt m, length-encrypted ms)

  -- The loop appends the text of the chunks that are left, while the result has room.
  decrypt_chunks-encrypted :
      (chunks : List Text) (size : ℕ) (result : Text)
      → All IsChunk chunks
      → length result + length (joined chunks) < size
      → decrypt_chunks crypto (length chunks) size (encrypted chunks) result
        ≡ done (some (c_string (result ++ joined chunks)))
  unfolding decrypt_chunks
  decrypt_chunks-encrypted [] size result h fits = ground (arith, append-nil result)
  decrypt_chunks-encrypted (m ∷ ms) size result (hm, hs) fits =
      let chunk = rsa_private_encrypt m in
      let both = length-append m (joined ms) in
      let longer = length-append result m in
      let room : leb (length (result ++ m)) size ≡ true = ground (arith, both, longer, fits) in
      let rest =
        decrypt_chunks-encrypted ms size (result ++ m) hs (omega (arith, both, longer, fits)) in
      rw (take-at crypto.rsa_size chunk (encrypted ms) (e.size_encrypt m)) (
        rw (e.decrypt_encrypt m hm) (
          rw room (
            rw (drop-at crypto.rsa_size chunk (encrypted ms) (e.size_encrypt m)) (
              rest
              ∙ ap (λ (s : Text). done (some (c_string s))) (append_assoc result m (joined ms))))))

  -- what is left of the size of the key by the padding
  joined-fits :
      (chunks : List Text)
      → All IsChunk chunks
      → 0 < length chunks
      → length (joined chunks) < length chunks * crypto.rsa_size
  joined-fits [] h some_chunk = absurd (omega arith)
  joined-fits (m ∷ []) (hm, hs) some_chunk = omega (arith, hm, length-append m [])
  joined-fits (m ∷ c ∷ ms) (hm, hs) some_chunk =
      omega (arith, hm, length-append m (joined (c ∷ ms)), joined-fits (c ∷ ms) hs (omega arith))

  positive-size :
      (chunks : List Text) → All IsChunk chunks → 0 < length chunks → 0 < crypto.rsa_size
  positive-size [] h some_chunk = absurd (omega arith)
  positive-size (m ∷ ms) (hm, hs) some_chunk = omega (arith, hm)

  decrypt_message-encrypted :
      (chunks : List Text)
      → All IsChunk chunks
      → 0 < length chunks
      → is_string (joined chunks) ≡ true
      → decrypt_message crypto (encrypted chunks) ≡ done (some (joined chunks))
  unfolding decrypt_message
  decrypt_message-encrypted chunks h some_chunk hs =
      let fits = joined-fits chunks h some_chunk in
      let n = length chunks in
      let count : n * crypto.rsa_size / crypto.rsa_size ≡ n =
        mul-div_cancel n (positive-size chunks h some_chunk) in
      rw (length-encrypted chunks) (
        rw count (
          decrypt_chunks-encrypted chunks (n * crypto.rsa_size) [] h (omega (arith, fits))
          ∙ ap (λ (s : Text). done (some s)) (c_string-is_string (joined chunks) hs)))

  -- the file that a license is given out in
  abbrev pub license_file_of : Text → Text → Text → List Text → Text
  license_file_of hash iv unique_id chunks =
      hash ++ (iv ++ aes_encrypt (crypto.hmac unique_id (codes "ENCRYPTION")) iv (encrypted chunks))

  -- A license whose text was encrypted in chunks with the private key and then with the unique id is decrypted to
  -- that text, with the public key and the same id, if the hash and the initial vector have their sizes.
  pub decrypt_license-license_file_of :
      (hash iv unique_id : Text) (chunks : List Text)
      → length hash ≡ hash_size
      → length iv ≡ iv_size
      → is_string unique_id ≡ true
      → is_string (joined chunks) ≡ true
      → 0 < length chunks
      → All IsChunk chunks
      → decrypt_license crypto true (license_file_of hash iv unique_id chunks) unique_id
        ≡ done (some (joined chunks))
  unfolding decrypt_license
  decrypt_license-license_file_of hash iv unique_id chunks hh hi hu hs some_chunk h =
      let key = crypto.hmac unique_id (codes "ENCRYPTION") in
      let body = aes_encrypt key iv (encrypted chunks) in
      let behind_hash = drop-at 32 hash (iv ++ body) hh in
      let at_iv = take-at 16 iv body hi in
      let header : length (hash ++ iv) ≡ 48 = length-append hash iv ∙ omega (arith, hh, hi) in
      let behind_iv : drop 48 (hash ++ (iv ++ body)) ≡ body =
        ap (drop 48) (sym (append_assoc hash iv body)) ∙ drop-at 48 (hash ++ iv) body header in
      let long : ltb (length (hash ++ (iv ++ body))) 48 ≡ false =
        ground (arith, length-append hash (iv ++ body), length-append iv body, hh, hi) in
      rw long (
        rw behind_iv (
          rw behind_hash (
            rw at_iv (
              rw (c_string-is_string unique_id hu) (
                rw (e.aes_decrypt_encrypt key iv (encrypted chunks))
                  (decrypt_message-encrypted chunks h some_chunk hs))))))
