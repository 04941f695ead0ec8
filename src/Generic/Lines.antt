-- ===== src/Generic/Lines.antt =====
-- The lines that src/modules/generic.c writes, and explode of src/sc_tools.c.
use agility_contest_serial_c.Base.{
  ℕ, ◌-◌, ◌≤◌, ◌<◌, ◌≡◌, refl, ◌∙◌, true, List, [], ◌∷◌, ◌++◌, append_assoc, ltb, Text, codes,
  toupper, map, take, take-length, length, done, arith, All,
}
use agility_contest_serial_c.Tokens.{Tokens, ntokens}
use agility_contest_serial_c.Tools.{explode, max_tokens}
use agility_contest_serial_c.Tools.Explode.{join, IsToken, explode-join}
use agility_contest_serial_c.Digican.{BlockingWrite, write_size}
use agility_contest_serial_c.Web.{spaced}
use agility_contest_serial_c.Generic.{compose, module_write}

join-front :
    (sep : ℕ) (acc a : Text) (rest : List Text)
    → join sep ((acc ++ sep ∷ a) ∷ rest) ≡ join sep (acc ∷ a ∷ rest)
unfolding join
join-front sep acc a [] = refl
join-front sep acc a (b ∷ rest) = append_assoc acc (sep ∷ a) (sep ∷ join sep (b ∷ rest))

-- tokens with spaces between them are the tokens joined by a space
spaced-join : (acc : Text) (args : List Text) → spaced acc args ≡ join b' ' (acc ∷ args)
unfolding join
spaced-join acc [] = refl
spaced-join acc (a ∷ rest) = spaced-join (acc ++ b' ' ∷ a) rest ∙ join-front b' ' acc a rest

-- capitals have no space either
toupper-IsToken : (s : Text) → IsToken b' ' s → IsToken b' ' (map toupper s)
unfolding toupper
toupper-IsToken [] h = refl
toupper-IsToken (c ∷ s) h = ground (arith, toupper-IsToken s)

-- A command of at most 32 tokens without spaces, short enough for the buffer, is written as one line
-- that ends with CR and LF, and explode takes the line apart into the command in capitals and the
-- arguments.
pub module_write-explode :
    {P : Type 0} (sp_blocking_write : BlockingWrite P) (port : P) (t : Tokens)
    → All (IsToken b' ') (t.cmd ∷ t.args)
    → length (t.cmd ∷ t.args) ≤ max_tokens
    → length (compose t (ntokens t)) < write_size
    → (line : Text) × (module_write sp_blocking_write port t (ntokens t)
        ≡ done (sp_blocking_write (line ++ codes "\r\n") port))
      × (explode line b' ' ≡ done (map toupper t.cmd ∷ t.args))
unfolding module_write compose
module_write-explode sp_blocking_write port t tokens few fits =
    let all : take (ntokens t - 2) t.args ≡ t.args =
      take-length t.args (ntokens t - 2) (omega arith) in
    let small : ltb (length (compose t (ntokens t))) write_size ≡ true = ground (arith, fits) in
    (
      join b' ' (map toupper t.cmd ∷ t.args),
      rw small (rw (all, spaced-join (map toupper t.cmd) t.args) refl),
      explode-join b' ' (map toupper t.cmd) t.args (toupper-IsToken t.cmd tokens.0, tokens.1) few,
    )
