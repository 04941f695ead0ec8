-- ===== src/Tools.antt =====
-- The text functions of src/sc_tools.c.
pub mod Explode
pub mod Replace
pub mod Stripos
mod Tests
use Prim.Native.Nat.{bit_xor}
use agility_contest_serial_c.Base.{
  ℕ, suc, ◌+◌, ◌-◌, ◌*◌, ◌/◌, ◌%◌, ◌^◌, Bool, true, false, ◌&&◌, Option, none, some, List, [], ◌∷◌,
  ◌++◌, ◌==◌, ltb, if◌then◌else◌, ℤ, pos, negsuc, Text, toupper, print_int, take, Run, done, fault,
  ◌>>=◌, zero, length, starts_with, drop, codes, ◌||◌, leb,
}

-- A `char` that is added to an `unsigned int`: bytes from 128 on are negative.
abbrev char_bits : ℕ → ℕ
char_bits c = if ltb c 128 then c else c + (2 ^ 32 - 256)

unfoldable pub hash_from : ℕ → Text → ℕ
hash_from h [] = h
hash_from h (c ∷ s) =
    let m = (bit_xor h (char_bits c) * 0x5bd1e995) % 2 ^ 32 in hash_from (bit_xor m (m / 2 ^ 15)) s

unfoldable pub strhash : Text → ℕ
unfolding hash_from
strhash key = hash_from (3323198485 % 2 ^ 32) key

-- The inner loop of stripos: the needle stands at the front, in whatever case.
unfoldable pub match_here : Text → Text → Bool
unfolding toupper
match_here [] s = true
match_here (c ∷ p) [] = false
match_here (c ∷ p) (d ∷ s) = toupper d == toupper c && match_here p s

unfoldable pub stripos_from : ℕ → Text → Text → ℤ
unfolding match_here
stripos_from i needle [] = negsuc 0
stripos_from i needle (c ∷ s) =
    if match_here needle (c ∷ s) then pos (i + 1) else stripos_from (suc i) needle s

-- The position from 1 on, -1 if there is none.
unfoldable pub stripos : Option Text → Option Text → ℤ
unfolding stripos_from
stripos none needle = negsuc 0
stripos (some haystack) none = negsuc 0
stripos (some haystack) (some needle) = stripos_from 0 needle haystack

-- The array that explode returns has room for 32 tokens.
abbrev pub max_tokens : ℕ
max_tokens = 32

-- `res[n] = from` and what follows it, where `token` is what stands between the last separator and
-- here; a write behind the array is undefined.
abbrev store_token : ℕ → Text → Run (List Text) → Run (List Text)
store_token n token rest = if ltb n max_tokens then (rest >>= λ r. done (token ∷ r)) else fault

unfoldable pub explode_from : ℕ → ℕ → Text → Text → Run (List Text)
explode_from separator n token [] = store_token n token (done [])
explode_from separator n token (c ∷ s) =
    let next = explode_from separator (suc n) [] s in
    let longer = explode_from separator n (token ++ c ∷ []) s in
    if c == separator
    then store_token n token (if ltb max_tokens (n + 1) then done [] else next)
    else longer

unfoldable pub explode : Text → ℕ → Run (List Text)
unfolding explode_from
explode line separator = explode_from separator 0 [] line

-- snprintf into 1024 bytes
unfoldable pub get_session_name : ℤ → Text → Text
unfolding print_int
get_session_name session client =
    take 1023 (codes "chrono:" ++ (print_int session ++ (codes ":0:0:" ++ client)))

-- strstr: what stands before the first `p`, and what stands behind it; `none` for NULL
unfoldable pub cut : Text → Text → Option (Text × Text)
unfolding starts_with
cut [] p = if starts_with p [] then some ([], []) else none
cut (c ∷ s) p =
    let rest = cut s p in
    if starts_with p (c ∷ s)
    then some ([], drop (length p) (c ∷ s))
    else elim rest [ none ↦ none | some (before, behind) ↦ some (c ∷ before, behind) ]

-- The loop of str_replace, which may not end: `none` when the fuel runs out before it does. NULL is
-- returned when malloc fails.
unfoldable pub replace_loop : ℕ → (ℕ → Bool) → Text → Text → Text → Option (Option Text)
unfolding cut
replace_loop zero malloc newstr substr replacement = none
replace_loop (suc fuel) malloc newstr substr replacement = elim (cut newstr substr) [
  | none ↦ some (some newstr)
  | some (before, behind) ↦
      let rest = replace_loop fuel malloc (before ++ replacement ++ behind) substr replacement in
      if malloc (length newstr - length substr + length replacement + 1) then rest else some none
]

-- strdup and malloc are parameters: whether they succeed. The tests for NULL come behind strlen.
unfoldable pub str_replace :
    Bool → ℕ → (ℕ → Bool) → Text → Option Text → Option Text → Run (Option (Option Text))
unfolding replace_loop
str_replace strdup fuel malloc string none replacement = fault
str_replace strdup fuel malloc string (some substr) none = fault
str_replace strdup fuel malloc string (some substr) (some replacement) =
    if strdup then done (replace_loop fuel malloc string substr replacement) else fault

-- hexdump of a byte: %02X of a `char`, which is negative from 128 on and printed as an `unsigned int`
abbrev hex_digit : ℕ → ℕ
hex_digit d = if ltb d 10 then b'0' + d else b'A' + (d - 10)

unfoldable pub hex_byte : ℕ → Text
hex_byte c =
    (if ltb c 128 then [] else codes "FFFFFF") ++ hex_digit (c / 16) ∷ hex_digit (c % 16) ∷ []

-- Every byte is printed at twice its position, over what the one before has left behind there; the array
-- has room for two characters for each byte and a 0.
unfoldable pub hexdump : Text → Run Text
unfolding hex_byte
hexdump [] = done []
hexdump (c ∷ []) = if ltb c 128 then done (hex_byte c) else fault
hexdump (c ∷ d ∷ s) = do
  rest ← hexdump (d ∷ s)
  if ltb c 128 || leb 3 (length (d ∷ s)) then done (take 2 (hex_byte c) ++ rest) else fault
