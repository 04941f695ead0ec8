-- ===== src/License/UniqueId.antt =====
-- retrieveUniqueID of src/license.c: it ends with an id, whatever the files hold.
use agility_contest_serial_c.Base.{
  ◌≡◌, ◌<◌, refl, ap, ◌∙◌, false, Option, some, if◌then◌else◌, Run, ◌>>=◌, List, [], ◌∷◌, leb, Text,
  codes, str_eq, starts_with, strstr, length, done, Bool-cases, inl, inr, arith,
}
use agility_contest_serial_c.Tools.Replace.{str_replace-ends}
use agility_contest_serial_c.License.{
  Entry, Files, always, replaced, ended, default_unique_id, sysini_handler, sysini_entries,
  id_from_file, retrieve_unique_id,
}

-- a text without quotes
abbrev pub IsBare : Text → Type 0
IsBare s = strstr s (codes "\"") ≡ false

default_unique_id-IsBare : IsBare default_unique_id
unfolding strstr starts_with
default_unique_id-IsBare = refl

replaced-ends :
    (s p r : Text)
    → length r < length p
    → (t : Text) × (replaced s p r ≡ done (some (some t))) × (strstr t p ≡ false)
unfolding replaced
replaced-ends s p r shorter =
    let (t, ends, out, _) = str_replace-ends always (λ n. refl) p r s shorter in (t, ends, out)

sysini_handler-IsBare :
    (s : Text) (e : Entry) → IsBare s → (t : Text) × (sysini_handler s e ≡ done t) × IsBare t
unfolding sysini_handler
sysini_handler-IsBare s (section, (name, value)) bare =
    let (t, ends, out) = replaced-ends value (codes "\"") [] (omega arith) in
    elim (Bool-cases (str_eq (codes "uniqueID") name)) [
      | inl same ↦ (t, rw same (ap (λ (r : Run (Option (Option Text))). r >>= ended) ends), out)
      | inr other ↦ (s, rw other refl, bare)
    ]

sysini_entries-IsBare :
    (s : Text) (es : List Entry) → IsBare s → (t : Text) × (sysini_entries s es ≡ done t) × IsBare t
unfolding sysini_entries
sysini_entries-IsBare s [] bare = (s, refl, bare)
sysini_entries-IsBare s (e ∷ es) bare =
    let (t, first, bare') = sysini_handler-IsBare s e bare in
    let (u, rest, bare'') = sysini_entries-IsBare t es bare' in (u, rw first (rw rest refl), bare'')

id_from_file-IsBare :
    (files : Files) (file : Text) → (t : Text) × (id_from_file files file ≡ done t) × IsBare t
unfolding id_from_file
id_from_file-IsBare files file =
    let (name, ends, _) =
      replaced-ends file (codes "registration.info") (codes "system.ini") (omega arith) in
    let (t, found, bare) =
      sysini_entries-IsBare default_unique_id (files.ini_entries name) default_unique_id-IsBare in
    let reads = λ (n : Text).
      if files.file_exists n
      then sysini_entries default_unique_id (files.ini_entries n)
      else done default_unique_id in
    let named : id_from_file files file ≡ reads name =
      ap (λ (r : Run (Option (Option Text))). r >>= λ n. ended n >>= reads) ends in
    elim (Bool-cases (files.file_exists name)) [
      | inl there ↦ (t, named ∙ rw there found, bare)
      | inr out ↦ (default_unique_id, named ∙ rw out refl, default_unique_id-IsBare)
    ]

-- The unique id is found, whatever files there are and whatever they hold, the loops of str_replace that it is made
-- with ending; it is what base64 makes of a text without quotes.
pub retrieve_unique_id-IsBare :
    (files : Files) (file : Text)
    → (t : Text) × (retrieve_unique_id files file ≡ done (files.base64_decode t)) × IsBare t
unfolding retrieve_unique_id
retrieve_unique_id-IsBare files file =
    let (t, found, bare) = id_from_file-IsBare files file in
    elim (Bool-cases (leb (length file) 0)) [
      | inl empty ↦ (default_unique_id, rw empty refl, default_unique_id-IsBare)
      | inr some_text ↦ (t, rw some_text (rw found refl), bare)
    ]
