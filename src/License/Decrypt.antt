-- ===== src/License/Decrypt.antt =====
-- decryptLicense and readLicenseFromFile of src/license.c: the license file is decrypted symmetrically with a key
-- that is made of the unique id, and then chunk by chunk with the public key. OpenSSL is a parameter.
pub mod Chunks
use agility_contest_serial_c.Base.{
  ℕ, zero, suc, ◌+◌, ◌*◌, ◌/◌, Bool, Option, none, some, [], ◌++◌, ltb, leb, if◌then◌else◌, ℤ, pos,
  negsuc, wrap32, Text, codes, take, drop, length, Run, done, fault, ◌>>=◌,
}
use agility_contest_serial_c.Dispatch.{c_string}
use agility_contest_serial_c.License.{Files, retrieve_unique_id}

-- HMAC with SHA-256 of a message with a key; AES-256 in CBC mode of the bytes with a key and an initial vector,
-- up to its padding; the size of the public key, and what is decrypted with it, `none` for an error.
pub record Crypto : Type 0 where
  pub hmac : Text → Text → Text
  pub aes_decrypt : Text → Text → Text → Text
  pub rsa_size : ℕ
  pub rsa_public_decrypt : Text → Option Text

-- the bytes of the hash, and of AES_BLOCK_SIZE
abbrev pub hash_size : ℕ
hash_size = 32

abbrev pub iv_size : ℕ
iv_size = 16

-- the 0 behind what was decrypted
abbrev close_text : ℕ → Text → Run (Option Text)
unfolding c_string
close_text size result = if ltb (length result) size then done (some (c_string result)) else fault

-- The chunks that are left, behind what was decrypted into the `size` bytes of the result.
unfoldable pub decrypt_chunks : Crypto → ℕ → ℕ → Text → Text → Run (Option Text)
unfolding c_string
decrypt_chunks crypto zero size dec_out result = close_text size result
decrypt_chunks crypto (suc n) size dec_out result =
    elim (crypto.rsa_public_decrypt (take crypto.rsa_size dec_out)) [
      | none ↦ done none
      | some chunk ↦
          let rest =
            decrypt_chunks crypto n size (drop crypto.rsa_size dec_out) (result ++ chunk) in
          if leb (length (result ++ chunk)) size then rest else fault
    ]

-- the message of the license in one chunk for each size of the key
unfoldable pub decrypt_message : Crypto → Text → Run (Option Text)
unfolding decrypt_chunks
decrypt_message crypto dec_out =
    let nchunks = length dec_out / crypto.rsa_size in
    decrypt_chunks crypto nchunks (nchunks * crypto.rsa_size) dec_out []

-- The data is a hash, an initial vector and the encrypted message; the hash is not looked at. Of shorter data the
-- bytes behind it are read. `puk` tells that there is a public key; NULL is read by RSA_size.
unfoldable pub decrypt_license : Crypto → Bool → Text → Text → Run (Option Text)
unfolding decrypt_message c_string
decrypt_license crypto puk data_in unique_id =
    let enc = crypto.hmac (c_string unique_id) (codes "ENCRYPTION") in
    let from_iv = drop hash_size data_in in
    let dec_out =
      crypto.aes_decrypt enc (take iv_size from_iv) (drop (hash_size + iv_size) data_in) in
    if ltb (length data_in) (hash_size + iv_size)
    then fault
    else if puk
    then decrypt_message crypto dec_out
    else fault

-- The result, and the license as it is then: `old` where no license is decrypted, and NULL where that fails.
unfoldable pub read_license_from_file :
    Files → Crypto → Bool → Text → Option Text → Run (ℤ × Option Text)
unfolding retrieve_unique_id decrypt_license
read_license_from_file files crypto puk license_file old =
    elim (files.base64_decode_file license_file) [
      | none ↦ done (negsuc 0, old)
      | some bytes ↦ (do
        unique_id ← retrieve_unique_id files license_file
        license_data ← decrypt_license crypto puk bytes unique_id
        elim license_data [
          | none ↦ done (negsuc 0, none)
          | some text ↦ done (wrap32 (pos (length text)), some text)
        ])
    ]
