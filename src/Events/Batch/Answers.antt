-- ===== src/Events/Batch/Answers.antt =====
-- parse_permissions and parse_select of src/ajax_json.c.
use agility_contest_serial_c.Base.{
  ℕ, ◌^◌, ◌<◌, ◌≡◌, ◌≢◌, refl, ◌∙◌, true, false, Option, none, some, List, [], ◌∷◌, ◌++◌,
  if◌then◌else◌, pos, negsuc, Text, codes, str_eq, str_eq_iff, str_eq_refl, strstr, starts_with,
  atoi, atoi-print_nat, EndsDigits, print_nat, drop, drop-append, length, All, done, arith,
}
use agility_contest_serial_c.Config.{Configuration}
use agility_contest_serial_c.Events.{Properties, ReadJson}
use agility_contest_serial_c.Events.Dog.{value-some}
use agility_contest_serial_c.Events.Batch.{
  ReadDocument, permissions_prefix, parse_permissions, ring_name, find_session, parse_select,
}

starts_with-append_self : (p s : Text) → starts_with p (p ++ s) ≡ true
unfolding starts_with
starts_with-append_self [] s = refl
starts_with-append_self (c ∷ p) s = ground (arith, starts_with-append_self p s)

strstr-prefix : (p s : Text) → 0 < length p → strstr (p ++ s) p ≡ true
unfolding strstr
strstr-prefix [] s h = absurd (omega arith)
strstr-prefix (c ∷ p) s h = rw (starts_with-append_self (c ∷ p) s) refl

number_behind :
    (p s : Text)
    → 0 < length p
    → (if strstr (p ++ s) p then atoi (drop (length p) (p ++ s)) else negsuc 0) ≡ atoi s
number_behind p s h = rw (strstr-prefix p s h, drop-append p s) refl

-- An answer that starts with the expected text and goes on with a number that an `int` holds gives that
-- number, whatever stands behind it that is no digit.
pub parse_permissions-print_nat :
    (n : ℕ) (s : Text)
    → n < 2 ^ 31
    → EndsDigits s
    → parse_permissions (permissions_prefix ++ (print_nat n ++ s)) ≡ pos n
unfolding parse_permissions
parse_permissions-print_nat n s small ends =
    number_behind permissions_prefix (print_nat n ++ s) (omega arith)
    ∙ atoi-print_nat n s small ends

-- a row of another ring
abbrev pub IsOther : Text → Option Properties → Type 0
IsOther ring none = Unit
IsOther ring (some get) = (name : Text) × (get (codes "Nombre") ≡ some name) × (name ≢ ring)

module _ (read_document : ReadDocument) (read_json : ReadJson) where
  find_session-first :
      (ring id : Text) (before behind : List (Option Properties)) (get : Properties)
      → All (IsOther ring) before
      → get (codes "Nombre") ≡ some ring
      → get (codes "ID") ≡ some id
      → find_session ring (before ++ some get ∷ behind) ≡ done (atoi id)
  unfolding find_session
  find_session-first ring id [] behind get others named has_id =
      rw (value-some get (codes "Nombre") ring named)
        (rw (str_eq_refl ring) (rw (value-some get (codes "ID") id has_id) refl))
  find_session-first ring id (none ∷ before) behind get others named has_id =
      find_session-first ring id before behind get others.1 named has_id
  find_session-first ring id (some other ∷ before) behind get others named has_id =
      let (name, has_name, differs) = others.0 in
      let test : str_eq name ring ≡ false = ground (arith, str_eq_iff name ring) in
      rw (value-some other (codes "Nombre") name has_name)
        (rw test (find_session-first ring id before behind get others.1 named has_id))

  -- parse_select gives the id of the first row that is named after the ring, when the rows in front of it are
  -- no objects or have other names.
  pub parse_select-first :
      (c : Configuration) (json id : Text) (total : Option Text)
      (before behind : List (Option Properties)) (get : Properties)
      → read_document json
        ≡ some (record { total = total; rows = some (before ++ some get ∷ behind) })
      → All (IsOther (ring_name c.ring)) before
      → get (codes "Nombre") ≡ some (ring_name c.ring)
      → get (codes "ID") ≡ some id
      → parse_select read_document read_json c json ≡ done (atoi id)
  unfolding parse_select
  parse_select-first c json id total before behind get parsed others named has_id =
      rw (parsed, parse_select)
        (find_session-first (ring_name c.ring) id before behind get others named has_id)
