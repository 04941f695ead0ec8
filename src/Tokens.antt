-- ===== src/Tokens.antt =====
-- The tokens of a command, as the main loop of src/main.c hands them to every manager: an array of
-- `char *` that is NULL behind the last token, and the number of tokens. It holds a source and a
-- command at least; `args` is what stands from tokens[2] on.
mod Tests
use agility_contest_serial_c.Base.{
  ℕ, ◌+◌, ◌≡◌, List, [], ◌∷◌, Text, Run, done, fault, length, ◌==◌, if◌then◌else◌, ◌⊎◌, inl, inr,
  arith,
}

pub record Tokens : Type 0 where
  pub source : Text
  pub cmd : Text
  pub args : List Text

-- the number of tokens that goes with the array at first
abbrev pub ntokens : Tokens → ℕ
ntokens t = 2 + length t.args

-- tokens[2] where it must not be NULL
unfoldable pub arg : List Text → Run Text
arg [] = fault
arg (a ∷ rest) = done a

-- `if (ntokens==2) tokens[ntokens++]=v`: the array, which the other managers see too, and the number
unfoldable pub with_default : Text → Tokens → ℕ → Tokens × ℕ
with_default v t n = if n == 2 then (record t { args = v ∷ [] }, 3) else (t, n)

-- The array goes with the number: either nothing was added, or one default was, to an array of two
-- tokens, by a manager that was called earlier.
abbrev pub IsArray : Tokens → ℕ → Type 0
IsArray t n = (n ≡ ntokens t) ⊎ ((n ≡ 2) × (length t.args ≡ 1))

-- The array that with_default leaves goes with the number that the other managers are given, and its
-- own number is that of its tokens.
pub with_default-IsArray :
    (v : Text) (t : Tokens) (n : ℕ)
    → IsArray t n
    → IsArray (with_default v t n).0 n × ((with_default v t n).1 ≡ ntokens (with_default v t n).0)
unfolding with_default
with_default-IsArray v t n (inl same) = ground arith
with_default-IsArray v t n (inr (two, one)) = ground arith
