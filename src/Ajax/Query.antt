-- ===== src/Ajax/Query.antt =====
-- The parameters of an address as a server reads them: behind the question mark, between `&`, with the percent
-- encoding taken back.
use agility_contest_serial_c.Base.{
  ℕ, ◌+◌, ◌-◌, ◌*◌, ◌≡◌, refl, ap, ◌∙◌, Option, none, some, List, [], ◌∷◌, ◌++◌, append_assoc,
  append-nil, true, false, ◌&&◌, ◌==◌, leb, if◌then◌else◌, Text, strchr, All, arith, map,
}
use agility_contest_serial_c.Tools.Explode.{split, IsToken, split-token, split-append}
use agility_contest_serial_c.Ajax.Bytes.{
  every, url_char, value_char, plain_char, every-append, every_mono, every-IsToken, and-parts,
  value-url, plain-url, value-amp, plain-question,
}

-- a name with its value
abbrev pub Field : Type 0
Field = Text × Text

-- the value of a hexadecimal digit
abbrev pub hex_digit : ℕ → Option ℕ
hex_digit c =
    if leb 48 c && leb c 57
    then some (c - 48)
    else if leb 65 c && leb c 70
    then some (c - 55)
    else if leb 97 c && leb c 102
    then some (c - 87)
    else none

abbrev unplus : ℕ → ℕ
unplus c = if c == b'+' then b' ' else c

-- the byte of two hexadecimal digits behind a `%`
abbrev coded : ℕ → ℕ → ℕ → Option ℕ
coded c d e =
    if c == b'%'
    then elim (hex_digit d) [
      | none ↦ none
      | some m ↦ elim (hex_digit e) [ none ↦ none | some n ↦ some (16 * m + n) ]
    ]
    else none

unfoldable pub percent_decode : Text → Text
percent_decode [] = []
percent_decode (c ∷ []) = unplus c ∷ []
percent_decode (c ∷ d ∷ []) = unplus c ∷ unplus d ∷ []
percent_decode (c ∷ d ∷ e ∷ s) =
    let behind = percent_decode s in
    let next = percent_decode (d ∷ e ∷ s) in
    elim (coded c d e) [ none ↦ unplus c ∷ next | some byte ↦ byte ∷ behind ]

-- what stands in front of the first `=` of each part, and what stands behind it, decoded
unfoldable pub read_fields : List Text → List Field
unfolding percent_decode
read_fields [] = []
read_fields (t ∷ ts) = elim (strchr t b'=') [
  | none ↦ read_fields ts
  | some (key, value) ↦ (key, percent_decode value) ∷ read_fields ts
]

-- The parameters of an address; none where it holds a byte that no address holds, or no question mark.
unfoldable pub query : Text → Option (List Field)
unfolding split read_fields
query url =
    if every url_char url
    then elim (strchr url b'?') [
      | none ↦ none
      | some (page, parts) ↦ some (read_fields (split b'&' parts))
    ]
    else none

-- "&key=value", one after the other
unfoldable pub parameters : List Field → Text
parameters [] = []
parameters ((key, value) ∷ rest) = b'&' ∷ (key ++ b'=' ∷ (value ++ parameters rest))

plain-unplus : (c : ℕ) → plain_char c ≡ true → unplus c ≡ c
plain-unplus c h = ground arith

plain-coded : (c d e : ℕ) → plain_char c ≡ true → coded c d e ≡ none
plain-coded c d e h = let no_percent : (c == b'%') ≡ false = ground arith in rw no_percent refl

-- what stands for itself is not changed
pub percent_decode-plain : (s : Text) → every plain_char s ≡ true → percent_decode s ≡ s
unfolding percent_decode
percent_decode-plain [] h = refl
percent_decode-plain (c ∷ []) h = rw (plain-unplus c (and-parts (plain_char c) true h).0) refl
percent_decode-plain (c ∷ d ∷ []) h =
    let (first, h') = and-parts (plain_char c) (every plain_char (d ∷ [])) h in
    rw (plain-unplus c first, plain-unplus d (and-parts (plain_char d) true h').0) refl
percent_decode-plain (c ∷ d ∷ e ∷ s) h =
    let (first, h') = and-parts (plain_char c) (every plain_char (d ∷ e ∷ s)) h in
    rw (percent_decode, plain-coded c d e first, plain-unplus c first)
      (ap (λ (t : Text). c ∷ t) (percent_decode-plain (d ∷ e ∷ s) h'))

-- a name without `=`, and a value that is encoded
abbrev pub IsField : Field → Type 0
IsField (key, value) =
    IsToken b'=' key × (every value_char key ≡ true) × (every value_char value ≡ true)

abbrev pub decoded : Field → Field
decoded (key, value) = (key, percent_decode value)

strchr-token :
    (sep : ℕ) (key value : Text)
    → IsToken sep key
    → strchr (key ++ sep ∷ value) sep ≡ some (key, value)
unfolding strchr
strchr-token sep [] value h = let same : (sep == sep) ≡ true = ground arith in rw same refl
strchr-token sep (c ∷ key) value h = ground (arith, strchr-token sep key value)

value-IsToken : (s : Text) → every value_char s ≡ true → IsToken b'&' s
value-IsToken s h = every-IsToken value_char b'&' s value-amp h

field-IsToken : (f : Field) → IsField f → IsToken b'&' (f.0 ++ b'=' ∷ f.1)
field-IsToken f (no_equal, key, value) =
    value-IsToken (f.0 ++ b'=' ∷ f.1) (every-append value_char f.0 (b'=' ∷ f.1) key (rw value refl))

split-parameters :
    (t : Text) (fs : List Field)
    → IsToken b'&' t
    → All IsField fs
    → (parts : List Text) × (split b'&' (t ++ parameters fs) ≡ t ∷ parts)
      × (read_fields parts ≡ map decoded fs)
unfolding parameters read_fields
split-parameters t [] ht h = ([], rw (append-nil t) (split-token b'&' t ht), refl)
split-parameters t ((key, value) ∷ fs) ht h =
    let (parts, cut, same) =
      split-parameters (key ++ b'=' ∷ value) fs (field-IsToken (key, value) h.0) h.1 in
    let front = split-append b'&' t (key ++ b'=' ∷ (value ++ parameters fs)) ht in
    let assoc = append_assoc key (b'=' ∷ value) (parameters fs) in
    (
      (key ++ b'=' ∷ value) ∷ parts,
      front ∙ ap (λ ps. t ∷ ps) (rw assoc at cut),
      rw (strchr-token b'=' key value h.0.0, read_fields)
          (ap (λ ps. (key, percent_decode value) ∷ ps) same),
    )

parameters-url : (fs : List Field) → All IsField fs → every url_char (parameters fs) ≡ true
unfolding parameters
parameters-url [] h = refl
parameters-url ((key, value) ∷ fs) h =
    let (no_equal, key_ok, value_ok) = h.0 in
    every-append url_char key (b'=' ∷ (value ++ parameters fs))
      (every_mono value_char url_char key value-url key_ok)
      (every-append url_char value (parameters fs)
        (every_mono value_char url_char value value-url value_ok) (parameters-url fs h.1))

-- an address whose page stands in front of the first question mark
pub query-parameters :
    (page : Text) (first : Field) (fs : List Field)
    → every plain_char page ≡ true
    → All IsField (first ∷ fs)
    → query (page ++ b'?' ∷ ((first.0 ++ b'=' ∷ first.1) ++ parameters fs))
      ≡ some (map decoded (first ∷ fs))
unfolding query read_fields
query-parameters page first fs plain h =
    let front = first.0 ++ b'=' ∷ first.1 in
    let (no_equal, key, value) = h.0 in
    let front_ok : every url_char front ≡ true =
      every_mono value_char url_char front value-url
        (every-append value_char first.0 (b'=' ∷ first.1) key (rw value refl)) in
    let behind_ok = every-append url_char front (parameters fs) front_ok (parameters-url fs h.1) in
    let page_ok : every url_char page ≡ true =
      every_mono plain_char url_char page plain-url plain in
    let all_ok =
      every-append url_char page (b'?' ∷ (front ++ parameters fs)) page_ok (rw behind_ok refl) in
    let cut =
      strchr-token b'?' page (front ++ parameters fs)
        (every-IsToken plain_char b'?' page plain-question plain) in
    let (parts, taken, same) = split-parameters front fs (field-IsToken first h.0) h.1 in
    rw (all_ok, cut, taken, read_fields, strchr-token b'=' first.0 first.1 no_equal)
      (ap (λ ps. some (decoded first ∷ ps)) same)
