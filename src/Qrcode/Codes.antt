-- ===== src/Qrcode/Codes.antt =====
-- The codes that src/qrcode_mgr.c reads.
use mathlib.Core.List.{map-append}
use agility_contest_serial_c.Base.{
  ℕ, zero, suc, ◌+◌, ◌/◌, ◌%◌, ◌^◌, ◌<◌, ◌≡◌, refl, ap, sym, ◌∙◌, some, [], ◌∷◌, ◌++◌, append_assoc,
  ltb, pos, Text, codes, tolower, starts_with, isdigit-digit, print_nat-digit, EndsDigits, atoi,
  atoi-print_nat, skip_space-digit, print_nat, print_from, map, Bool-cases, inl, inr, arith,
}
use agility_contest_serial_c.Qrcode.{
  literal, behind_digits, scan_digits, scan_int, parse_numbers, parse_dorsal,
}

-- the code of a dog
unfoldable pub code_of : ℕ → ℕ → Text
unfolding print_nat
code_of dorsal dog =
    codes "[\"" ++ (print_nat dorsal ++ (codes "\",\"" ++ (print_nat dog ++ codes "\"]")))

behind_digits-ends : (s : Text) → EndsDigits s → behind_digits s ≡ s
unfolding behind_digits
behind_digits-ends [] h = refl
behind_digits-ends (c ∷ s) h = rw h refl

behind_digits-print_from :
    (f n : ℕ) (s : Text) → behind_digits (print_from f n ++ s) ≡ behind_digits s
unfolding behind_digits print_from
behind_digits-print_from zero n s = refl
behind_digits-print_from (suc f) n s = elim (Bool-cases (ltb n 10)) [
  | inl small ↦ rw small (rw (isdigit-digit n (ground arith)) refl)
  | inr large ↦
      rw (large, append_assoc (print_from f (n / 10)) ((48 + n % 10) ∷ []) s)
        (behind_digits-print_from f (n / 10) ((48 + n % 10) ∷ s)
          ∙ rw (isdigit-digit (n % 10) (omega arith)) refl)
]

behind_digits-print_nat : (n : ℕ) (s : Text) → EndsDigits s → behind_digits (print_nat n ++ s) ≡ s
unfolding print_nat
behind_digits-print_nat n s ends = behind_digits-print_from (suc n) n s ∙ behind_digits-ends s ends

scan_digits-digit :
    (k : ℕ) (s : Text)
    → k < 10
    → scan_digits ((48 + k) ∷ s) ≡ some (atoi ((48 + k) ∷ s), behind_digits s)
unfolding scan_digits
scan_digits-digit k s digit = rw (isdigit-digit k digit) refl

behind_digits-digit : (k : ℕ) (s : Text) → k < 10 → behind_digits ((48 + k) ∷ s) ≡ behind_digits s
unfolding behind_digits
behind_digits-digit k s digit = rw (isdigit-digit k digit) refl

scan_int-digit :
    (k : ℕ) (s : Text)
    → k < 10
    → scan_int ((48 + k) ∷ s) ≡ some (atoi ((48 + k) ∷ s), behind_digits ((48 + k) ∷ s))
unfolding scan_int
scan_int-digit k s digit =
    ap scan_digits (skip_space-digit k s digit)
    ∙ scan_digits-digit k s digit
    ∙ ap (λ t. some (atoi ((48 + k) ∷ s), t)) (sym (behind_digits-digit k s digit))

scan_int-print_nat :
    (n : ℕ) (s : Text) → n < 2 ^ 31 → EndsDigits s → scan_int (print_nat n ++ s) ≡ some (pos n, s)
scan_int-print_nat n s small ends =
    let (k, r, digit, e) = print_nat-digit n in
    let number = atoi-print_nat n s small ends in
    let behind = behind_digits-print_nat n s ends in
    rw e (scan_int-digit k (r ++ s) digit ∙ rw (rw e at number, rw e at behind) refl)

tolower-print_from : (f n : ℕ) → map tolower (print_from f n) ≡ print_from f n
unfolding print_from tolower
tolower-print_from zero n = refl
tolower-print_from (suc f) n = elim (Bool-cases (ltb n 10)) [
  | inl small ↦ rw small (ground arith)
  | inr large ↦
      rw (large, map-append tolower (print_from f (n / 10)) ((48 + n % 10) ∷ []))
        (rw (tolower-print_from f (n / 10)) (ground arith))
]

tolower-print_nat : (n : ℕ) → map tolower (print_nat n) ≡ print_nat n
unfolding print_nat
tolower-print_nat n = tolower-print_from (suc n) n

tolower-code_of : (dorsal dog : ℕ) → map tolower (code_of dorsal dog) ≡ code_of dorsal dog
unfolding tolower code_of
tolower-code_of dorsal dog =
    rw
      (
        map-append tolower (print_nat dorsal) (codes "\",\"" ++ (print_nat dog ++ codes "\"]")),
        map-append tolower (print_nat dog) (codes "\"]"),
        tolower-print_nat dorsal,
        tolower-print_nat dog,
      )
      refl

parse_numbers-code_of :
    (dorsal dog : ℕ)
    → dorsal < 2 ^ 31
    → dog < 2 ^ 31
    → parse_numbers (code_of dorsal dog) ≡ some (pos dorsal, pos dog)
unfolding parse_numbers literal code_of starts_with
parse_numbers-code_of dorsal dog small small' =
    let first = scan_int-print_nat dorsal (codes "\",\"" ++ (print_nat dog ++ codes "\"]")) small in
    rw (first refl, parse_numbers) (rw (scan_int-print_nat dog (codes "\"]") small' refl) refl)

-- A code with a dorsal and a dog that an `int` holds is read to the two numbers.
pub parse_dorsal-code_of :
    (dorsal dog : ℕ)
    → dorsal < 2 ^ 31
    → dog < 2 ^ 31
    → parse_dorsal (code_of dorsal dog) ≡ some (pos dorsal, pos dog)
unfolding parse_dorsal
parse_dorsal-code_of dorsal dog small small' =
    ap parse_numbers (tolower-code_of dorsal dog) ∙ parse_numbers-code_of dorsal dog small small'
