-- ===== src/License/Search.antt =====
-- The search of src/license.c for an item: where strstr finds a name in the JSON object of a license.
use agility_contest_serial_c.Base.{
  ℕ, ◌<◌, ◌≡◌, ◌≢◌, refl, Bool, true, false, not, ◌&&◌, Option, none, some, List, [], ◌∷◌, ◌++◌,
  ◌∙◌, ap, sym, append_assoc, ◌==◌, if◌then◌else◌, Text, codes, str_eq, str_eq_iff, str_eq_refl,
  starts_with, drop, drop-append, length, arith,
}
use agility_contest_serial_c.Tools.{cut}

-- no quotes
abbrev pub is_plain : Text → Bool
is_plain [] = true
is_plain (c ∷ s) = not (c == b'"') && is_plain s

abbrev pub IsPlain : Text → Type 0
IsPlain s = is_plain s ≡ true

-- a name and its value
abbrev pub Member : Type 0
Member = Text × Text

abbrev pub IsMember : Member → Type 0
IsMember (k, v) = IsPlain k × IsPlain v

-- what stands behind the key of a member
abbrev pub from_value : Text → Text → Text
from_value v rest = v ++ (b'"' ∷ rest)

abbrev pub from_key : Text → Text → Text → Text
from_key k v rest = k ++ (b'"' ∷ b':' ∷ b'"' ∷ from_value v rest)

-- `first` stands in front of the first member, a comma in front of the others
abbrev pub members_text : ℕ → List Member → Text
members_text first [] = codes "}"
members_text first ((k, v) ∷ ms) = first ∷ b'"' ∷ from_key k v (members_text b',' ms)

-- the text of a license with these members
abbrev pub license_of : List Member → Text
license_of ms = members_text b'{' ms

-- the value of the first member of that name
abbrev pub find_member : Text → List Member → Option Text
find_member item [] = none
find_member item ((k, v) ∷ ms) = if str_eq item k then some v else find_member item ms

-- a name that is short enough for the key, and that no text between two quotes can be but a name
abbrev pub IsItem : Text → Type 0
IsItem item =
    IsPlain item × (length item < 60) × (item ≢ []) × (item ≢ codes ":") × (item ≢ codes ",")

-- the key behind its first quotes
abbrev pub key_rest : Text → Text
key_rest item = item ++ codes "\":\""

-- A text that starts with plain text and quotes starts with the key exactly when that text is the item and
-- a colon and quotes follow.
starts_with-key :
    (item k rest : Text)
    → IsPlain item
    → IsPlain k
    → starts_with (key_rest item) (k ++ (b'"' ∷ rest))
      ≡ (str_eq item k && starts_with (codes ":\"") rest)
unfolding starts_with str_eq
starts_with-key [] [] rest hi hk = refl
starts_with-key [] (d ∷ k) rest hi hk = ground arith
starts_with-key (c ∷ item) [] rest hi hk = ground arith
starts_with-key (c ∷ item) (d ∷ k) rest hi hk = ground (arith, starts_with-key item k rest)

-- what follows the first occurrence
abbrev pub behind_of : Option (Text × Text) → Option Text
behind_of none = none
behind_of (some (before, behind)) = some behind

-- An occurrence of a text with quotes in front does not start at another byte.
cut-plain :
    (c : ℕ) (s p : Text)
    → not (c == b'"') ≡ true
    → behind_of (cut (c ∷ s) (b'"' ∷ p)) ≡ behind_of (cut s (b'"' ∷ p))
unfolding cut starts_with
cut-plain c s p h = ground arith

cut-IsPlain :
    (s t p : Text) → IsPlain s → behind_of (cut (s ++ t) (b'"' ∷ p)) ≡ behind_of (cut t (b'"' ∷ p))
cut-IsPlain [] t p h = refl
cut-IsPlain (c ∷ s) t p h = ground (arith, cut-plain c (s ++ t) p, cut-IsPlain s t p)

cut-other :
    (s p : Text)
    → starts_with p s ≡ false
    → behind_of (cut (b'"' ∷ s) (b'"' ∷ p)) ≡ behind_of (cut s (b'"' ∷ p))
unfolding cut starts_with
cut-other s p h = ground arith

cut-found :
    (s p : Text)
    → starts_with p s ≡ true
    → behind_of (cut (b'"' ∷ s) (b'"' ∷ p)) ≡ some (drop (length p) s)
unfolding cut starts_with
cut-found s p h = ground arith

-- Plain text in quotes that is not the item with a colon behind it is passed over, up to its second quotes.
cut-quoted :
    (item k rest : Text)
    → IsPlain item
    → IsPlain k
    → (str_eq item k && starts_with (codes ":\"") rest) ≡ false
    → behind_of (cut (b'"' ∷ (k ++ (b'"' ∷ rest))) (b'"' ∷ key_rest item))
      ≡ behind_of (cut (b'"' ∷ rest) (b'"' ∷ key_rest item))
cut-quoted item k rest hi hk other =
    cut-other (k ++ (b'"' ∷ rest)) (key_rest item) (starts_with-key item k rest hi hk ∙ other)
    ∙ cut-IsPlain k (b'"' ∷ rest) (key_rest item) hk

-- no colon stands behind a value
members-no_colon :
    (ms : List Member) (p : Text) → starts_with (b':' ∷ p) (members_text b',' ms) ≡ false
unfolding starts_with
members-no_colon [] p = refl
members-no_colon ((k, v) ∷ ms) p = refl

str_eq-≢ : (s t : Text) → s ≢ t → str_eq s t ≡ false
str_eq-≢ s t ne = ground (arith, str_eq_iff s t)

-- the end of the object is no key
starts_with-end : (item : Text) → starts_with (key_rest item) (codes "}") ≡ false
unfolding starts_with
starts_with-end [] = refl
starts_with-end (c ∷ []) = ground arith
starts_with-end (c ∷ d ∷ item) = ground arith

-- behind a value, up to the next member
cut-separator :
    (item : Text) (ms : List Member)
    → IsItem item
    → behind_of (cut (b'"' ∷ members_text b',' ms) (b'"' ∷ key_rest item))
      ≡ behind_of (cut (members_text b',' ms) (b'"' ∷ key_rest item))
cut-separator item [] h = cut-other (codes "}") (key_rest item) (starts_with-end item)
cut-separator item ((k, v) ∷ ms) (plain, _, _, _, no_comma) =
    let other = str_eq-≢ item (codes ",") no_comma in
    cut-other _ (key_rest item) (
      starts_with-key item (codes ",") (from_key k v (members_text b',' ms)) plain refl
      ∙ rw other refl)

-- A member of another name is passed over.
pub cut-member :
    (item k v : Text) (ms : List Member) (first : ℕ)
    → IsItem item
    → IsMember (k, v)
    → str_eq item k ≡ false
    → not (first == b'"') ≡ true
    → behind_of (cut (members_text first ((k, v) ∷ ms)) (b'"' ∷ key_rest item))
      ≡ behind_of (cut (members_text b',' ms) (b'"' ∷ key_rest item))
unfolding starts_with
cut-member item k v ms first h (hk, hv) other sep =
    let rest = members_text b',' ms in
    let value = from_value v rest in
    let p = key_rest item in
    let colon = str_eq-≢ item (codes ":") (h.3) in
    cut-plain first (b'"' ∷ from_key k v rest) p sep
    ∙ cut-quoted item k (b':' ∷ b'"' ∷ value) h.0 hk (rw other refl)
    ∙ cut-quoted item (codes ":") value h.0 refl (rw colon refl)
    ∙ cut-quoted item v rest h.0 hv (ground (arith, members-no_colon ms (b'"' ∷ [])))
    ∙ cut-separator item ms h

-- the member of that name is found
pub cut-named :
    (item v : Text) (ms : List Member) (first : ℕ)
    → IsItem item
    → not (first == b'"') ≡ true
    → behind_of (cut (members_text first ((item, v) ∷ ms)) (b'"' ∷ key_rest item))
      ≡ some (from_value v (members_text b',' ms))
unfolding starts_with
cut-named item v ms first h sep =
    let value = from_value v (members_text b',' ms) in
    let p = key_rest item in
    let text : item ++ (b'"' ∷ b':' ∷ b'"' ∷ value) ≡ p ++ value =
      sym (append_assoc item (codes "\":\"") value) in
    let found =
      starts_with-key item item (b':' ∷ b'"' ∷ value) h.0 h.0 ∙ rw (str_eq_refl item) refl in
    cut-plain first (b'"' ∷ from_key item v (members_text b',' ms)) p sep
    ∙ cut-found (item ++ (b'"' ∷ b':' ∷ b'"' ∷ value)) p found
    ∙ ap (λ (s : Text). some (drop (length p) s)) text
    ∙ ap some (drop-append p value)
