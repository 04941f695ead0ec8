-- ===== src/Base/Print.antt =====
-- The decimal numbers of printf, and strtol and atoi on them.
use Prim.Native.Nat.{ℕ, zero, suc, ◌+◌, ◌-◌, ◌*◌, ◌/◌, ◌%◌, ◌^◌, ◌<◌}
use mathlib.Core.Path.{◌≡◌, refl, ◌∙◌, ap, sym}
use mathlib.Core.Bool.{true, false}
use mathlib.Core.List.{[], ◌∷◌, ◌++◌, append_assoc, append-nil}
use mathlib.Core.Logic.{inl, inr}
use native.Mathlib.Omega.{arith}
use agility_contest_serial_c.Base.Tests.{ltb, leb, ◌==◌, Bool-cases}
use agility_contest_serial_c.Base.Int.{pos, wrap32_eq}
use agility_contest_serial_c.Base.CString.{Text, isdigit}
use agility_contest_serial_c.Base.Number.{
  isspace, skip_space, digits_from, signed_digits, strtol, atoi, print_from, print_nat,
}

pub isdigit-digit : (k : ℕ) → k < 10 → isdigit (48 + k) ≡ true
unfolding isdigit
isdigit-digit k h = ground arith

pub digits_from-digit :
    (acc k m : ℕ) (s : Text)
    → k < 10
    → acc * 10 + k ≡ m
    → digits_from acc ((48 + k) ∷ s) ≡ digits_from m s
unfolding digits_from
digits_from-digit acc k m s h e =
    let value : acc * 10 + (48 + k - 48) ≡ m = omega (arith, e) in
    rw (isdigit-digit k h, value) refl

-- the value of the digits that a number is printed with is the number
pub digits_from-print_from :
    (f n : ℕ) (s : Text) → n < f → digits_from 0 (print_from f n ++ s) ≡ digits_from n s
unfolding print_from
digits_from-print_from zero n s h = absurd (omega arith)
digits_from-print_from (suc f) n s h = elim (Bool-cases (ltb n 10)) [
  | inl small ↦ rw small (digits_from-digit 0 n n s (ground arith) (omega arith))
  | inr large ↦
      rw (large, append_assoc (print_from f (n / 10)) ((48 + n % 10) ∷ []) s)
        (digits_from-print_from f (n / 10) ((48 + n % 10) ∷ s) (ground arith)
          ∙ digits_from-digit (n / 10) (n % 10) n s (omega arith) (omega arith))
]

-- the digits stop before the first character that is none
abbrev pub EndsDigits : Text → Type 0
EndsDigits [] = Unit {0}
EndsDigits (c ∷ s) = isdigit c ≡ false

pub digits_from-end : (n : ℕ) (s : Text) → EndsDigits s → digits_from n s ≡ n
unfolding digits_from
digits_from-end n [] h = refl
digits_from-end n (c ∷ s) h = rw h refl

-- a printed number starts with a digit
pub print_from-digit :
    (f n : ℕ) → n < f → (k : ℕ) × (s : Text) × (k < 10) × (print_from f n ≡ (48 + k) ∷ s)
unfolding print_from
print_from-digit zero n h = absurd (omega arith)
print_from-digit (suc f) n h = elim (Bool-cases (ltb n 10)) [
  | inl small ↦ (n, [], ground arith, rw small refl)
  | inr large ↦
      let (k, s, d, e) = print_from-digit f (n / 10) (ground arith) in
      (k, s ++ (48 + n % 10) ∷ [], d, rw (large, e) refl)
]

isspace-digit : (k : ℕ) → k < 10 → isspace (48 + k) ≡ false
unfolding isspace
isspace-digit k h = ground arith

pub skip_space-digit : (k : ℕ) (s : Text) → k < 10 → skip_space ((48 + k) ∷ s) ≡ (48 + k) ∷ s
unfolding skip_space
skip_space-digit k s d = rw (isspace-digit k d) refl

signed_digits-digit :
    (k n : ℕ) (s : Text)
    → k < 10
    → digits_from 0 ((48 + k) ∷ s) ≡ n
    → n < 2 ^ 63
    → signed_digits ((48 + k) ∷ s) ≡ pos n
unfolding signed_digits
signed_digits-digit k n s d value small =
    let no_minus : (48 + k == b'-') ≡ false = ground arith in
    let no_plus : (48 + k == b'+') ≡ false = ground arith in
    let in_range : leb (2 ^ 63) n ≡ false = ground arith in
    rw (no_minus, no_plus) (rw value (rw in_range refl))

pub strtol-digits :
    (k n : ℕ) (s : Text)
    → k < 10
    → digits_from 0 ((48 + k) ∷ s) ≡ n
    → n < 2 ^ 63
    → strtol ((48 + k) ∷ s) ≡ pos n
unfolding strtol
strtol-digits k n s d value small =
    rw (skip_space-digit k s d) (signed_digits-digit k n s d value small)

-- strtol reads a printed number back, up to the first character that is no digit
pub strtol-print_nat :
    (n : ℕ) (s : Text) → n < 2 ^ 63 → EndsDigits s → strtol (print_nat n ++ s) ≡ pos n
unfolding print_nat
strtol-print_nat n s small ends =
    let (k, r, d, e) = print_from-digit (suc n) n (omega arith) in
    let value = digits_from-print_from (suc n) n s (omega arith) ∙ digits_from-end n s ends in
    rw e (strtol-digits k n (r ++ s) d (rw e at value) small)

-- so does atoi, for what an `int` can hold
pub atoi-print_nat :
    (n : ℕ) (s : Text) → n < 2 ^ 31 → EndsDigits s → atoi (print_nat n ++ s) ≡ pos n
unfolding atoi
atoi-print_nat n s small ends =
    rw (strtol-print_nat n s (omega arith) ends) (wrap32_eq (pos n) (ground arith))

pub print_nat-digit : (n : ℕ) → (k : ℕ) × (s : Text) × (k < 10) × (print_nat n ≡ (48 + k) ∷ s)
unfolding print_nat
print_nat-digit n = print_from-digit (suc n) n (omega arith)

pub atoi-print : (n : ℕ) → n < 2 ^ 31 → atoi (print_nat n) ≡ pos n
atoi-print n small = ap atoi (sym (append-nil (print_nat n))) ∙ atoi-print_nat n [] small tt
