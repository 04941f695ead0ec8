-- ===== src/Startup/Licensed.antt =====
-- The license file at the start of the program: src/main.c over src/license.c, from the bytes of the file to the
-- decision whether the program goes on.
use Prim.Native.Nat.{bit_and}
use agility_contest_serial_c.Base.{
  ℕ, ◌^◌, ◌<◌, ◌≡◌, refl, ◌∙◌, ap, true, Bool, Option, none, some, List, ◌==◌, if◌then◌else◌, ℤ,
  pos, ltb_ℤ, wrap32, wrap32_eq, Text, codes, length, All, Run, done, ◌>>=◌, arith,
}
use agility_contest_serial_c.Config.{Configuration}
use agility_contest_serial_c.License.{Files, get_license_item, retrieve_unique_id}
use agility_contest_serial_c.License.Search.{Member, IsMember, license_of, find_member}
use agility_contest_serial_c.License.Items.{get_license_item-find_member}
use agility_contest_serial_c.License.Decrypt.{Crypto, hash_size, iv_size, read_license_from_file}
use agility_contest_serial_c.License.Decrypt.Chunks.{
  Encrypts, joined, is_string, IsChunk, license_file_of, decrypt_license-license_file_of,
}
use agility_contest_serial_c.Startup.{
  Outside, options_of, find_license, judge_license, check_license,
}

-- the options of the license in a file; the license is NULL before
unfoldable pub license_options : Files → Crypto → Bool → Text → Run (Option (Option Text))
unfolding read_license_from_file get_license_item
license_options files crypto puk file = do
  (res, license_data) ← read_license_from_file files crypto puk file none
  if ltb_ℤ res (pos 0)
      then done none
      else (do options ← get_license_item license_data (codes "options"); done (some options))

-- the outside of the start with the license of src/license.c
abbrev pub licensed_by : Files → Crypto → Bool → Text → Outside
unfolding license_options
licensed_by files crypto puk default_file = record {
  file_exists = files.file_exists;
  read_license = license_options files crypto puk;
  default_file = default_file;
}

-- what follows from the bits of the options
abbrev pub decision : Configuration → Text → ℕ → Option Configuration × ℤ
decision c file bits =
    if bit_and bits 0x840 == 0
    then (none, pos 1)
    else (some (record c { license_file = file }), pos 0)

-- A file holds a license with these members: encrypted in chunks with the private key and then with the unique
-- id that the system has, its text shorter than an `int` counts.
pub record HoldsLicense (files : Files) (crypto : Crypto) (rsa_private_encrypt : Text → Text)
    (aes_encrypt : Text → Text → Text → Text) (e : Encrypts crypto rsa_private_encrypt aes_encrypt)
    (file : Text) (ms : List Member) : Type 0 where
  pub hash : Text
  pub iv : Text
  pub unique_id : Text
  pub chunks : List Text
  pub bytes :
      files.base64_decode_file file
      ≡ some (license_file_of crypto rsa_private_encrypt aes_encrypt e hash iv unique_id chunks)
  pub same_id : retrieve_unique_id files file ≡ done unique_id
  pub hash_length : length hash ≡ hash_size
  pub iv_length : length iv ≡ iv_size
  pub id_string : is_string unique_id ≡ true
  pub text_string : is_string (joined chunks) ≡ true
  pub some_chunk : 0 < length chunks
  pub all_chunks : All (IsChunk crypto rsa_private_encrypt aes_encrypt e) chunks
  pub text : joined chunks ≡ license_of ms
  pub short : length (joined chunks) < 2 ^ 31

module _ (files : Files) (crypto : Crypto) (rsa_private_encrypt : Text → Text)
    (aes_encrypt : Text → Text → Text → Text)
    (e : Encrypts crypto rsa_private_encrypt aes_encrypt) where
  license_options-HoldsLicense :
      (file : Text) (ms : List Member)
      → HoldsLicense files crypto rsa_private_encrypt aes_encrypt e file ms
      → All IsMember ms
      → license_options files crypto true file ≡ done (some (find_member (codes "options") ms))
  unfolding license_options read_license_from_file
  license_options-HoldsLicense file ms l hm =
      let decrypts =
        decrypt_license-license_file_of crypto rsa_private_encrypt aes_encrypt e l.hash l.iv
          l.unique_id l.chunks l.hash_length l.iv_length l.id_string l.text_string l.some_chunk
          l.all_chunks in
      let n = length (joined l.chunks) in
      let size : wrap32 (pos n) ≡ pos n = wrap32_eq (pos n) (ground (arith, l.short)) in
      let item : get_license_item (some (joined l.chunks)) (codes "options")
          ≡ done (find_member (codes "options") ms) =
        ap (λ (s : Text). get_license_item (some s) (codes "options")) l.text
        ∙ get_license_item-find_member (codes "options") ms
            (refl, omega arith, (λ q. cc q), (λ q. cc q), (λ q. cc q)) hm in
      let reads : read_license_from_file files crypto true file none
          ≡ done (pos n, some (joined l.chunks)) =
        rw (l.bytes, read_license_from_file) (rw l.same_id (rw decrypts (rw size refl))) in
      rw (reads, license_options) (rw item (ground arith))

  -- When the configured license file is there and holds a license with options, the program goes on with it
  -- exactly if one of the two bits for chronometers is set in the options, and else ends with the result 1.
  pub check_license-decision :
      (default_file : Text) (c : Configuration) (ms : List Member) (options : Text)
      → files.file_exists c.license_file ≡ true
      → HoldsLicense files crypto rsa_private_encrypt aes_encrypt e c.license_file ms
      → All IsMember ms
      → find_member (codes "options") ms ≡ some options
      → check_license (licensed_by files crypto true default_file) c
        ≡ done (decision c c.license_file (options_of options))
  unfolding check_license find_license judge_license licensed_by
  check_license-decision default_file c ms options there l hm found =
      let reads = license_options-HoldsLicense c.license_file ms l hm in
      let o = licensed_by files crypto true default_file in
      let finds : find_license o c.license_file ≡ some c.license_file =
        rw (there, find_license) refl in
      rw (finds, check_license) (rw reads (rw found (ground arith)))
