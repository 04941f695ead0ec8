-- ===== src/License/Tests.antt =====
-- The license at concrete members, and with a cipher that only pads.
use agility_contest_serial_c.Base.{
  ◌≡◌, refl, true, some, none, [], ◌∷◌, Text, codes, str_eq, done, arith,
}
use agility_contest_serial_c.License.{Files, get_license_item, retrieve_unique_id}
use agility_contest_serial_c.License.UniqueId.{IsBare, retrieve_unique_id-IsBare}
use agility_contest_serial_c.License.Search.{license_of}
use agility_contest_serial_c.License.Items.{get_license_item-find_member}
use agility_contest_serial_c.License.Decrypt.{decrypt_license}
use agility_contest_serial_c.License.Decrypt.Chunks.{
  license_file_of, decrypt_license-license_file_of,
}
use agility_contest_serial_c.Samples.Cipher.{pad, crypto, pad-Encrypts, hash}

get_license_item-find_member_example :
    get_license_item
      (some (
        license_of
          ((codes "club", codes "My club") ∷ (codes "options", codes "100001000000") ∷ [])))
      (codes "options")
    ≡ done (some (codes "100001000000"))
unfolding str_eq
get_license_item-find_member_example =
    get_license_item-find_member (codes "options")
      ((codes "club", codes "My club") ∷ (codes "options", codes "100001000000") ∷ [])
      (refl, omega arith, (λ e. cc e), (λ e. cc e), (λ e. cc e)) ((refl, refl), ((refl, refl), tt))

decrypt_license-license_file_of_example :
    decrypt_license crypto true
      (license_file_of crypto pad
        (λ key iv m. m)
        pad-Encrypts
        hash
        (codes "0123456789abcdef")
        (codes "id")
        (codes "{\"k\"" ∷ codes ":\"v\"}" ∷ []))
      (codes "id")
    ≡ done (some (codes "{\"k\":\"v\"}"))
decrypt_license-license_file_of_example =
    decrypt_license-license_file_of crypto pad (λ key iv m. m) pad-Encrypts hash
      (codes "0123456789abcdef") (codes "id") (codes "{\"k\"" ∷ codes ":\"v\"}" ∷ []) refl refl refl
      refl (omega arith) (omega arith, (omega arith, tt))

-- an id of the system, and a license that is not encrypted any more
abbrev files : Files
files = record {
  file_exists = λ f. true;
  ini_entries = λ f. (codes "global", (codes "uniqueID", codes "\"abc\"")) ∷ [];
  base64_decode = λ s. s;
  base64_decode_file = λ f. none;
  read_logo = λ f. none;
}

retrieve_unique_id-IsBare_example :
    (t : Text) × (retrieve_unique_id files (codes "registration.info") ≡ done t) × IsBare t
retrieve_unique_id-IsBare_example = retrieve_unique_id-IsBare files (codes "registration.info")
