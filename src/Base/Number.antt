-- ===== src/Base/Number.antt =====
-- strtol, atoi and the %d and %lu of printf, on decimal numbers.
use Prim.Native.Nat.{ℕ, zero, suc, ◌+◌, ◌-◌, ◌*◌, ◌/◌, ◌%◌, ◌^◌}
use mathlib.Core.Bool.{Bool, ◌&&◌, ◌||◌}
use mathlib.Core.List.{[], ◌∷◌, ◌++◌}
use agility_contest_serial_c.Base.Tests.{ltb, leb, ◌==◌, if◌then◌else◌}
use agility_contest_serial_c.Base.Int.{ℤ, pos, negsuc, sub_ℕ, wrap32}
use agility_contest_serial_c.Base.CString.{Text, isdigit}

unfoldable pub isspace : ℕ → Bool
isspace c = (c == 32) || (leb 9 c && leb c 13)

unfoldable pub skip_space : Text → Text
unfolding isspace
skip_space [] = []
skip_space (c ∷ s) = if isspace c then skip_space s else c ∷ s

-- The value of the digits at the front, behind those with the value `acc`.
unfoldable pub digits_from : ℕ → Text → ℕ
unfolding isdigit
digits_from acc [] = acc
digits_from acc (c ∷ s) =
    let rest = digits_from (acc * 10 + (c - 48)) s in if isdigit c then rest else acc

-- A `long` that is out of range is clamped to the nearest one.
unfoldable pub signed_digits : Text → ℤ
unfolding digits_from
signed_digits [] = pos 0
signed_digits (c ∷ s) =
    if c == b'-'
    then (let n = digits_from 0 s in if leb (2 ^ 63) n then negsuc (2 ^ 63 - 1) else sub_ℕ 0 n)
    else let n = digits_from 0 (if c == b'+' then s else c ∷ s) in
      if leb (2 ^ 63) n then pos (2 ^ 63 - 1) else pos n

-- strtol(s, NULL, 10)
unfoldable pub strtol : Text → ℤ
unfolding skip_space signed_digits
strtol s = signed_digits (skip_space s)

-- atoi(s), which is (int) strtol(s, NULL, 10)
unfoldable pub atoi : Text → ℤ
unfolding strtol wrap32
atoi s = wrap32 (strtol s)

-- Each round takes a digit off, so fuel above `n` is enough.
unfoldable pub print_from : ℕ → ℕ → Text
print_from zero n = []
print_from (suc f) n =
    let rest = print_from f (n / 10) in
    if ltb n 10 then (48 + n) ∷ [] else rest ++ (48 + n % 10) ∷ []

-- %lu
unfoldable pub print_nat : ℕ → Text
unfolding print_from
print_nat n = print_from (suc n) n

-- %d
unfoldable pub print_int : ℤ → Text
unfolding print_nat
print_int (pos n) = print_nat n
print_int (negsuc n) = b'-' ∷ print_nat (suc n)
