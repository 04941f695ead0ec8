-- ===== src/License/Key.antt =====
-- The public key of src/license.c, and the MD5 sum by which it is checked. MD5 and the reader of keys of OpenSSL are
-- parameters.
pub mod Sums
use agility_contest_serial_c.Base.{
  ℕ, zero, suc, ◌+◌, ◌-◌, ◌/◌, ◌%◌, Bool, false, List, [], ◌∷◌, ◌++◌, ltb, leb, if◌then◌else◌, Text,
  codes, str_eq, take, drop, length,
}

-- the lines of the built-in key
abbrev pub pk_lines : List Text
pk_lines =
    codes "MIIEIjANBgkqhkiG9w0BAQEFAAOCBA8AMIIECgKCBAEAzgeD27TXHKde3iNMtQSq"
    ∷ codes "yAFoeZYVOoPPjGQkFcNamxfGR8rFmgvGrJn28u2bq1dVnIduF9Lj4sPMt9cs/rT+"
    ∷ codes "IOnFD3uACZbqku+e39gyrKyu7aZ2t+XTR4IUFKhGYuwr1TRmb/46iXJF7V7ZU9ci"
    ∷ codes "q5/A7vCU8XJ9IyInd52yFeSgZdVl4TB/+qqlVJNiyvfpxwHakx/qM+JqjsgXoS+B"
    ∷ codes "6Xr9ZChtTh5gljGMxmLQlLLnScwZ7Ku7pnYkZnP/Nb2jT0gaNHBM1af1mpdwpDRD"
    ∷ codes "3igilVchrydcknKoF1LRbApgoIbLbzX9QufiJbfKA3ZWtB4c6YL8sSbgIgeHDguS"
    ∷ codes "i0obvVFESynMs4WKYtzIIJZEw3G7jXtVHPLoJ56udAT0Moxw6oiVhdGvSejKz/Ik"
    ∷ codes "95uPYRMOnlOle+y18UVduHuudKPqoCKFmnub+z8eVLm/aP1SHBpo1l87tDM3w3aT"
    ∷ codes "tHwkmAGhQn+udRMCrb0f897XlR7ReNdwppBLLmLR5sdWpAIjpNatw4N2YJG3uehf"
    ∷ codes "rHYwlIYovjHVZUbz8D0NxUVJHXv99QB9f37D6D40aiYSA5YnHgkKCq9dkSHeq7GU"
    ∷ codes "79fzrCEUihx2d2Nn7tLC3rR/45XI5WU7T61R0N6PPAl8slrOOEnYBs5YlSLH8Sdt"
    ∷ codes "Pi4f2+65qK8jVM1fTly4YOvsuA8mPtimTAgMBa0ys0I9RLezwmlbQbXoYwrx7avC"
    ∷ codes "SjAe7o3i8g8uGEW+WTPsT87KZdJKRrlr48lMTnonuAbU59phK+b8IAVS3q6rHOyc"
    ∷ codes "uwtPRofqBh9Qok3PYYf0Tobc3R8OKi8cX1rXjPGodxFQfcINIAlmLEJxWyMJlM8l"
    ∷ codes "rD33czqk2Opx1kYmjkU7zn1x046w0IaUgZqrBCO6K0qMsrfV0VfHf4lAn3WGDY+h"
    ∷ codes "2oZlQqmExBcEdLu2aeNwTAq8G1zwS4atF62r2uR4ZEBJNxWfM32kDHKDEEg8selk"
    ∷ codes "iD8lxxyGvUgc0/6EboY2JoN0n8QTJbJzC57cqYhYSxh7FekAGZ+xAxA5Ujy+e16H"
    ∷ codes "MBKVhRbAj5+Dk803kvej+F6mOx69VekeEVr3C0xlzMslI7wvXY+IZHD+EgLgTFaO"
    ∷ codes "TY5ilQ7AjX4id7cXiUHvPpkYsxr9A+ImM3JzdjFkWaKAwmPK6rTbtxA4j86dMktF"
    ∷ codes "bKuGHf0lnGPLLNIVrBYfUXa+rdvBlxuZ6dLDaHoq3+3AH0s+5+b3HJCYLY/VMSgV"
    ∷ codes "qwCr9Xj8P28JFYziX0aic/0O7Q5Hkp39I7PikB4EJB73NUaYd/UK8EJ1c5zSz2tI"
    ∷ codes "LHN0iN/VSKutDHrfZ0om7krDSEyY6TZ/rVDewnFQmbIiIORgig7mjH0EXBUiXBJF"
    ∷ codes "VQIDAQAB"
    ∷ []

abbrev pub lines_text : List Text → Text
lines_text [] = []
lines_text (l ∷ ls) = l ++ (codes "\n" ++ lines_text ls)

unfoldable pub get_pk : Text
get_pk = lines_text pk_lines

-- MD5_Init, MD5_Update with some bytes, and the 16 bytes of MD5_Final
pub record Md5 (C : Type 0) : Type 0 where
  pub init : C
  pub update : C → Text → C
  pub final : C → Text

abbrev hex_digit : ℕ → ℕ
hex_digit d = if ltb d 10 then b'0' + d else b'a' + (d - 10)

-- %02x of every byte
unfoldable pub hex : Text → Text
hex [] = []
hex (c ∷ s) = hex_digit (c / 16) ∷ hex_digit (c % 16) ∷ hex s

module _ {C : Type 0} (md5 : Md5 C) where
  -- The loop over 512 bytes at a time; `fuel` bounds its rounds.
  unfoldable pub update_all : ℕ → C → Text → C
  update_all zero c str = c
  update_all (suc fuel) c str =
      let rest = update_all fuel (md5.update c (take 512 str)) (drop 512 str) in
      if leb (length str) 0 then c else rest

  -- on as many rounds as the text has bytes
  unfoldable pub md5sum : Text → Text
  unfolding update_all hex
  md5sum str = hex (md5.final (update_all (length str) md5.init str))

  abbrev pub key_text : Text
  unfolding get_pk
  key_text = codes "-----BEGIN PUBLIC KEY-----\n" ++ (get_pk ++ codes "-----END PUBLIC KEY-----\n")

  -- Whether there is a key: its text has the sum that it should, and is read as a key.
  unfoldable pub get_public_key : (Text → Bool) → Bool
  unfolding md5sum str_eq get_pk
  get_public_key read_key =
      if str_eq (codes "ff430f62f2e112d176110b704b256542") (md5sum key_text)
      then read_key key_text
      else false
