-- ===== src/Ajax/Bytes.antt =====
-- The bytes of an address: which of them stand for themselves, and what is printed of numbers.
use agility_contest_serial_c.Base.{
  ℕ, zero, suc, ◌+◌, ◌%◌, ◌/◌, ◌≡◌, refl, [], ◌∷◌, ◌++◌, Bool, true, false, ◌&&◌, not, ◌==◌, ltb, ℤ,
  pos, negsuc, Text, print_int, print_nat, print_from, take, unsigned, ◌^◌, arith,
}
use agility_contest_serial_c.Tools.Explode.{IsToken}
use agility_contest_serial_c.Ajax.{print_time}

-- every byte of a text has a property
abbrev pub every : (ℕ → Bool) → Text → Bool
every p [] = true
every p (c ∷ s) = p c && every p s

-- the bytes of an address: what is printed, no space, and no `#`, behind which a fragment would begin
abbrev pub url_char : ℕ → Bool
url_char c = ltb 32 c && ltb c 127 && not (c == b'#')

-- those of a value that is encoded
abbrev pub value_char : ℕ → Bool
value_char c = url_char c && not (c == b'&')

-- those that stand for themselves everywhere
abbrev pub plain_char : ℕ → Bool
plain_char c = value_char c && not (c == b'%') && not (c == b'+') && not (c == b'?')

module _ (p : ℕ → Bool) where
  pub every-append : (s t : Text) → every p s ≡ true → every p t ≡ true → every p (s ++ t) ≡ true
  every-append [] t hs ht = ht
  every-append (c ∷ s) t hs ht = ground (arith, every-append s t)

  pub every-take : (n : ℕ) (s : Text) → every p s ≡ true → every p (take n s) ≡ true
  every-take zero s h = refl
  every-take (suc n) [] h = refl
  every-take (suc n) (c ∷ s) h = ground (arith, every-take n s)

  pub every_mono :
      (q : ℕ → Bool) (s : Text)
      → ((c : ℕ) → p c ≡ true → q c ≡ true)
      → every p s ≡ true
      → every q s ≡ true
  every_mono q [] implies h = refl
  every_mono q (c ∷ s) implies h = ground (arith, implies c, every_mono q s implies)

  pub every-IsToken :
      (sep : ℕ) (s : Text)
      → ((c : ℕ) → p c ≡ true → (c == sep) ≡ false)
      → every p s ≡ true
      → IsToken sep s
  every-IsToken sep [] other h = refl
  every-IsToken sep (c ∷ s) other h = ground (arith, other c, every-IsToken sep s other)

pub every-print_from :
    (p : ℕ → Bool)
    → ((n : ℕ) → p (48 + n % 10) ≡ true)
    → (f n : ℕ) → every p (print_from f n) ≡ true
unfolding print_from
every-print_from p digits zero n = refl
every-print_from p digits (suc f) n =
    let digit : every p ((48 + n % 10) ∷ []) ≡ true = rw (digits n) refl in
    let both =
      every-append p (print_from f (n / 10)) ((48 + n % 10) ∷ [])
        (every-print_from p digits f (n / 10)) digit in
    ground (arith, both, digit)

pub and-parts : (a b : Bool) → (a && b) ≡ true → (a ≡ true) × (b ≡ true)
and-parts true b h = (refl, h)
and-parts false b h = ground arith

pub value-url : (c : ℕ) → value_char c ≡ true → url_char c ≡ true
value-url c h = ground arith

pub plain-value : (c : ℕ) → plain_char c ≡ true → value_char c ≡ true
plain-value c h = ground arith

pub plain-url : (c : ℕ) → plain_char c ≡ true → url_char c ≡ true
plain-url c h = value-url c (plain-value c h)

pub value-amp : (c : ℕ) → value_char c ≡ true → (c == b'&') ≡ false
value-amp c h = ground arith

pub plain-question : (c : ℕ) → plain_char c ≡ true → (c == b'?') ≡ false
plain-question c h = ground arith

pub digit-plain : (n : ℕ) → plain_char (48 + n % 10) ≡ true
digit-plain n = ground arith

pub print_nat-plain : (n : ℕ) → every plain_char (print_nat n) ≡ true
unfolding print_nat
print_nat-plain n = every-print_from plain_char digit-plain (suc n) n

pub print_time-plain : (z : ℤ) → every plain_char (print_time z) ≡ true
unfolding print_time
print_time-plain z = print_nat-plain (unsigned (2 ^ 64) z)

pub print_int-plain : (z : ℤ) → every plain_char (print_int z) ≡ true
unfolding print_int
print_int-plain (pos n) = print_nat-plain n
print_int-plain (negsuc n) = print_nat-plain (suc n)
