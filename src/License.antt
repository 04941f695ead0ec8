-- ===== src/License.antt =====
-- src/license.c: the license of the program. Here: the unique id that its key is made of, the items of the
-- decrypted license, and its logo. Files, the ini parser and base64 of OpenSSL are parameters.
pub mod Decrypt
pub mod Key
pub mod Search
pub mod Items
pub mod UniqueId
mod Tests
use agility_contest_serial_c.Base.{
  ℕ, suc, ◌+◌, ◌-◌, Bool, true, Option, none, some, List, [], ◌∷◌, ◌++◌, ltb, leb, if◌then◌else◌,
  Text, codes, str_eq, strchr, take, drop, length, Run, done, fault, ◌>>=◌,
}
use agility_contest_serial_c.Tools.{cut, str_replace}

-- DEFAULT_UniqueID
abbrev pub default_unique_id : Text
default_unique_id = codes "MDAwMDAwMDAwMDAwMDAwMA=="

-- a section, a name and a value of an ini file
abbrev pub Entry : Type 0
Entry = Text × (Text × Text)

-- The outside of the license: which files exist, the entries that ini_parse hands to its handler in front of
-- its end or its first error, and the bytes that base64 stands for. A file that cannot be read as base64 is
-- none, and so is a logo that is no regular file or cannot be opened.
pub record Files : Type 0 where
  pub file_exists : Text → Bool
  pub ini_entries : Text → List Entry
  pub base64_decode : Text → Text
  pub base64_decode_file : Text → Option Text
  pub read_logo : Text → Option Text

abbrev pub always : ℕ → Bool
always n = true

-- `str_replace(string,substr,replacement)`, on as many rounds as the string has bytes and one; it is none
-- where these are not enough. Memory is taken to be there.
unfoldable pub replaced : Text → Text → Text → Run (Option (Option Text))
unfolding str_replace
replaced string substr replacement =
    str_replace true (suc (length string)) always string (some substr) (some replacement)

-- the result of a loop that has ended with a text
abbrev pub ended : Option (Option Text) → Run Text
ended none = fault
ended (some none) = fault
ended (some (some s)) = done s

-- the entry "uniqueID", without its quotes
unfoldable pub sysini_handler : Text → Entry → Run Text
unfolding str_eq replaced
sysini_handler result (section, (name, value)) =
    if str_eq (codes "uniqueID") name
    then (do r ← replaced value (codes "\"") []; ended r)
    else done result

unfoldable pub sysini_entries : Text → List Entry → Run Text
unfolding sysini_handler
sysini_entries result [] = done result
sysini_entries result (e ∷ entries) = do
  result' ← sysini_handler result e
  sysini_entries result' entries

-- the id from the file beside the license
unfoldable pub id_from_file : Files → Text → Run Text
unfolding sysini_entries replaced
id_from_file files license_file = do
  r ← replaced license_file (codes "registration.info") (codes "system.ini")
  name ← ended r
  (if files.file_exists name
      then sysini_entries default_unique_id (files.ini_entries name)
      else done default_unique_id)

unfoldable pub retrieve_unique_id : Files → Text → Run Text
unfolding id_from_file
retrieve_unique_id files license_file = do
  result ←
      (if leb (length license_file) 0
        then done default_unique_id
        else id_from_file files license_file)
  done (files.base64_decode result)

-- the key that is searched for, cut by snprintf
abbrev pub search_key : Text → Text
search_key item = take 63 (codes "\"" ++ (item ++ codes "\":\""))

-- `pt1+=strlen(item)+4`, where `behind` is what follows the key; then the value up to the closing quotes
unfoldable pub value_behind : Text → Text → Run (Option Text)
unfolding strchr
value_behind item behind =
    let skipped = length item + 4 - length (search_key item) in
    if ltb (length behind) skipped then fault else elim (strchr (drop skipped behind) b'"') [
      | none ↦ done none
      | some (value, rest) ↦ done (some value)
    ]

-- what strstr finds: what stands before the key, and what follows it
unfoldable pub found_value : Text → Option (Text × Text) → Run (Option Text)
unfolding value_behind
found_value item none = done none
found_value item (some (before, behind)) = value_behind item behind

-- The license is NULL until it has been read.
unfoldable pub get_license_item : Option Text → Text → Run (Option Text)
unfolding cut found_value
get_license_item none item = done none
get_license_item (some license_data) item = found_value item (cut license_data (search_key item))

abbrev pub logo_file : Text
logo_file = codes "html/AgilityContest.png"

-- the logo of the html tree with its size, which is not set where there is none
abbrev pub own_logo : Files → Option Text × ℕ
own_logo files = elim (files.read_logo logo_file) [
  | none ↦ (none, 0)
  | some image ↦ (some image, length image)
]

-- The logo and the size, which is 0 for one in base64.
unfoldable pub get_license_logo : Files → Option Text → Run (Option Text × ℕ)
unfolding get_license_item
get_license_logo files license_data = do
  image ← get_license_item license_data (codes "image")
  elim image [
    | none ↦ done (own_logo files)
    | some text ↦ if leb (length text) 0 then done (own_logo files) else done (some text, 0)
  ]
