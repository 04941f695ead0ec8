-- ===== src/Tools/Tests.antt =====
-- The theorems on the text functions at concrete texts.
use agility_contest_serial_c.Base.{
  ◌≡◌, ◌≤◌, refl, [], ◌∷◌, some, leb, if◌then◌else◌, pos, codes, toupper, map, done, fault, length,
  arith, true, false, Text, strstr, starts_with,
}
use agility_contest_serial_c.Tools.{
  explode, stripos, stripos_from, match_here, strhash, hash_from, max_tokens, hexdump, hex_byte,
  str_replace,
}
use agility_contest_serial_c.Tools.Explode.{split, explode-split}
use agility_contest_serial_c.Tools.Replace.{str_replace-ends}

-- the constants of src/modules/canometroweb.c are hashes of names
strhash_uptime : strhash (codes "uptime") ≡ 1460523255
unfolding strhash hash_from
strhash_uptime = refl

strhash_faults : strhash (codes "faults") ≡ 2573711985
unfolding strhash hash_from
strhash_faults = refl

explode-split_example : explode (codes "a bc") b' ' ≡ (
    if leb (length (split b' ' (codes "a bc"))) max_tokens
    then done (split b' ' (codes "a bc"))
    else fault)
explode-split_example = explode-split (codes "a bc") b' '

found_at : stripos (some (codes "an eXit")) (some (codes "exit")) ≡ pos 4
unfolding stripos stripos_from match_here toupper
found_at = refl

same_letters : map toupper (codes "eXit") ≡ map toupper (codes "exit")
unfolding toupper
same_letters = refl

str_replace-ends_example :
    (t : Text) × (str_replace true 7 (λ n. true) (codes "\"aB\"c\"") (some (codes "\"")) (some [])
      ≡ done (some (some t)))
    × (strstr t (codes "\"") ≡ false)
    × (length t ≤ 6)
str_replace-ends_example =
    str_replace-ends (λ n. true) (λ n. refl) (codes "\"") [] (codes "\"aB\"c\"") (omega arith)

occurs : strstr (codes "xa") (codes "a") ≡ true
unfolding strstr starts_with
occurs = refl

-- a byte from 128 on is printed as FF, and the last three have no room for it
hexdump_bytes : hexdump (10 ∷ 200 ∷ 1 ∷ 2 ∷ 3 ∷ []) ≡ done (codes "0AFF010203")
unfolding hexdump hex_byte
hexdump_bytes = refl

hexdump_short : hexdump (200 ∷ 1 ∷ 2 ∷ []) ≡ fault
unfolding hexdump hex_byte
hexdump_short = refl
