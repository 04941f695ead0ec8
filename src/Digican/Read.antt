-- ===== src/Digican/Read.antt =====
-- What src/modules/digican.c writes for STOP, and its module_read.
use agility_contest_serial_c.Base.{
  ℕ, zero, suc, ◌+◌, ◌-◌, ◌*◌, ◌/◌, ◌^◌, ◌<◌, ◌≡◌, refl, ap, ◌∙◌, some, ◌∷◌, ◌++◌, ℤ, pos, ◌-ℤ◌,
  wrap32, wrap32_eq, wrap64, div_ℤ, Text, codes, str_eq, tolower, strcase_eq, starts_with, atoi,
  print_nat, print_int, digits_from, strtol-digits, print_from-digit, digits_from-print_from,
  digits_from-end, digits_from-digit, EndsDigits, length, append_assoc, done, arith,
}
use agility_contest_serial_c.Config.{Status}
use agility_contest_serial_c.Digican.{zeros, print_04, stop_cents, cents_to_ms, line_of, compose}

digits_from-zeros : (k : ℕ) (s : Text) → digits_from 0 (zeros k ++ s) ≡ digits_from 0 s
digits_from-zeros zero s = refl
digits_from-zeros (suc k) s =
    digits_from-digit 0 0 0 (zeros k ++ s) (omega arith) refl ∙ digits_from-zeros k s

-- a padded number starts with a digit
padded-digit :
    (z n : ℕ) (s : Text)
    → (k : ℕ) × (r : Text) × (k < 10) × ((zeros z ++ print_nat n) ++ s ≡ (48 + k) ∷ r)
unfolding print_nat
padded-digit zero n s =
    let (k, r, d, e) = print_from-digit (suc n) n (omega arith) in (k, r ++ s, d, rw e refl)
padded-digit (suc z) n s = (0, (zeros z ++ print_nat n) ++ s, omega arith, refl)

atoi-print_04 :
    (n : ℕ) (s : Text) → n < 2 ^ 31 → EndsDigits s → atoi (print_04 (pos n) ++ s) ≡ pos n
unfolding atoi print_04 print_nat
atoi-print_04 n s small ends =
    let (k, r, d, e) = padded-digit (4 - length (print_nat n)) n s in
    let value =
      ap (digits_from 0) (append_assoc (zeros (4 - length (print_nat n))) (print_nat n) s)
      ∙ digits_from-zeros (4 - length (print_nat n)) (print_nat n ++ s)
      ∙ digits_from-print_from (suc n) n s (omega arith)
      ∙ digits_from-end n s ends in
    rw (e, strtol-digits k n r d (rw e at value) (omega arith)) (wrap32_eq (pos n) (ground arith))

wrap64_small : (e : ℕ) → e < 2 ^ 31 → wrap64 (pos e) ≡ pos e
unfolding wrap64
wrap64_small e h = ground arith

cents_to_ms_small : (n : ℕ) → 10 * n < 2 ^ 31 → cents_to_ms (pos n) ≡ pos (10 * n)
unfolding cents_to_ms
cents_to_ms_small n h = wrap32_eq (pos (10 * n)) (ground arith)

stop_cents_lem :
    (s : Status) (e : ℕ)
    → s.stop_time -ℤ s.start_time ≡ pos e
    → e < 2 ^ 31
    → stop_cents s ≡ pos (e / 10)
unfolding stop_cents div_ℤ
stop_cents_lem s e elapsed small =
    ap (λ z. wrap32 (div_ℤ (wrap64 z) 10)) elapsed
    ∙ rw (wrap64_small e small) (wrap32_eq (pos (e / 10)) (ground arith))

-- For a run of 0 to 2^31 - 1 milliseconds, the text that STOP composes for the device is one that
-- module_read turns into a stop line with the time of the run, rounded down to 10 milliseconds.
pub line_of-compose :
    (s : Status) (f r : ℤ) (e : ℕ)
    → s.stop_time -ℤ s.start_time ≡ pos e
    → e < 2 ^ 31
    → (b : Text) × (compose s f r (codes "stop") ≡ done (some (f, r, b)))
      × (line_of b ≡ codes "stop " ++ print_nat (10 * (e / 10)) ++ codes "\n")
unfolding compose strcase_eq str_eq tolower line_of starts_with print_int
line_of-compose s f r e elapsed small =
    let cents = stop_cents_lem s e elapsed small in
    let ms : cents_to_ms (pos (e / 10)) ≡ pos (10 * (e / 10)) =
      cents_to_ms_small (e / 10) (omega arith) in
    (_, refl, rw (cents, atoi-print_04 (e / 10) (codes "$") (omega arith) refl, ms) refl)
