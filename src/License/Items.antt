-- ===== src/License/Items.antt =====
-- The items of a license (src/license.c): get_license_item on the JSON object of a license.
use mathlib.Core.Path.{subst}
use agility_contest_serial_c.Base.{
  ℕ, ◌+◌, ◌-◌, ◌<◌, ◌≡◌, refl, true, not, Option, none, some, List, [], ◌∷◌, ◌∙◌, ap, ◌==◌,
  if◌then◌else◌, Text, codes, str_eq, str_eq_iff, starts_with, strchr, take-length, length,
  length-append, All, done, arith, Bool-cases, inl, inr,
}
use agility_contest_serial_c.Tools.{cut}
use agility_contest_serial_c.License.Search.{
  IsPlain, Member, IsMember, from_value, members_text, license_of, find_member, IsItem, key_rest,
  behind_of, cut-member, cut-named,
}
use agility_contest_serial_c.License.{search_key, value_behind, found_value, get_license_item}

-- what the search leaves for the value
abbrev value_of : Text → List Member → Option Text
value_of item [] = none
value_of item ((k, v) ∷ ms) =
    if str_eq item k then some (from_value v (members_text b',' ms)) else value_of item ms

cut-value_of :
    (item : Text) (ms : List Member) (first : ℕ)
    → IsItem item
    → All IsMember ms
    → not (first == b'"') ≡ true
    → behind_of (cut (members_text first ms) (b'"' ∷ key_rest item)) ≡ value_of item ms
unfolding cut starts_with
cut-value_of item [] first h hs sep = refl
cut-value_of item ((k, v) ∷ ms) first h (hm, hs) sep = elim (Bool-cases (str_eq item k)) [
  | inl same ↦
      let e : item ≡ k = (str_eq_iff item k).0 same in
      rw same (
        subst
          (λ (n : Text).
            behind_of (cut (members_text first ((n, v) ∷ ms)) (b'"' ∷ key_rest item))
            ≡ some (from_value v (members_text b',' ms)))
          e (cut-named item v ms first h sep))
  | inr other ↦
      cut-member item k v ms first h hm other sep ∙ rw other (cut-value_of item ms b',' h hs refl)
]

strchr-value : (v rest : Text) → IsPlain v → strchr (from_value v rest) b'"' ≡ some (v, rest)
unfolding strchr
strchr-value [] rest h = refl
strchr-value (c ∷ v) rest h = ground (arith, strchr-value v rest)

search_key_lem : (item : Text) → length item < 60 → search_key item ≡ b'"' ∷ key_rest item
search_key_lem item h =
    let size = length-append item (codes "\":\"") in
    take-length (b'"' ∷ key_rest item) 63 (omega (arith, size))

value_behind-from_value :
    (item v rest : Text)
    → length item < 60
    → IsPlain v
    → value_behind item (from_value v rest) ≡ done (some v)
unfolding value_behind
value_behind-from_value item v rest short plain =
    let size = length-append item (codes "\":\"") in
    let key = ap (length {A = ℕ}) (search_key_lem item short) in
    let none_left : length item + 4 - length (search_key item) ≡ 0 = omega (arith, size, key) in
    rw none_left (rw (strchr-value v rest plain) (ground arith))

-- what is found for what the search leaves
found_value-some :
    (item b : Text) (o : Option (Text × Text))
    → behind_of o ≡ some b
    → found_value item o ≡ value_behind item b
unfolding found_value
found_value-some item b none h = cc h
found_value-some item b (some (before, behind)) h = cc

found_value-none :
    (item : Text) (o : Option (Text × Text)) → behind_of o ≡ none → found_value item o ≡ done none
unfolding found_value
found_value-none item none h = refl
found_value-none item (some (before, behind)) h = cc

found_value-value_of :
    (item : Text) (ms : List Member) (o : Option (Text × Text))
    → length item < 60
    → All IsMember ms
    → behind_of o ≡ value_of item ms
    → found_value item o ≡ done (find_member item ms)
found_value-value_of item [] o short h e = found_value-none item o e
found_value-value_of item ((k, v) ∷ ms) o short (hm, hs) e = elim (Bool-cases (str_eq item k)) [
  | inl same ↦
      found_value-some item (from_value v (members_text b',' ms)) o (e ∙ rw same refl)
      ∙ value_behind-from_value item v (members_text b',' ms) short hm.1
      ∙ rw same refl
  | inr other ↦ found_value-value_of item ms o short hs (e ∙ rw other refl) ∙ rw other refl
]

-- From a license whose names and values hold no quotes, the value of the first member of a name is read, and
-- NULL if there is none, for every name without quotes that is not empty, shorter than 60 bytes and neither a
-- colon nor a comma.
pub get_license_item-find_member :
    (item : Text) (ms : List Member)
    → IsItem item
    → All IsMember ms
    → get_license_item (some (license_of ms)) item ≡ done (find_member item ms)
unfolding get_license_item
get_license_item-find_member item ms h hs =
    let o = cut (license_of ms) (search_key item) in
    let behind : behind_of o ≡ value_of item ms =
      rw (search_key_lem item h.1) (cut-value_of item ms b'{' h hs refl) in
    found_value-value_of item ms o h.1 hs behind
