-- ===== src/Generic/Tests.antt =====
-- The line of a concrete command.
use agility_contest_serial_c.Base.{
  ◌≡◌, ◌<◌, refl, List, [], ◌∷◌, pos, Text, codes, length, arith, ℕ, zero, suc, some,
}
use agility_contest_serial_c.Tokens.{Tokens, ntokens}
use agility_contest_serial_c.Digican.{BlockingWrite, write_size}
use agility_contest_serial_c.Generic.{compose, ReadByte, byte, Read, module_read}
use agility_contest_serial_c.Generic.Reads.{IsBounded, size_of, module_read-ends}
use agility_contest_serial_c.Samples.{tokens_of}

abbrev port : BlockingWrite (List Text)
port s sent = (pos 1, s ∷ sent)

abbrev fault_tokens : Tokens
fault_tokens = tokens_of (codes "web") (codes "fault") (codes "+" ∷ [])

fault_fits : length (compose fault_tokens (ntokens fault_tokens)) < write_size
unfolding compose
fault_fits = omega arith

-- the same byte again and again
abbrev repeated : ℕ → List ReadByte
repeated zero = []
repeated (suc n) = byte b'x' ∷ repeated n

size_of-repeated : (n : ℕ) → size_of (repeated n) ≡ n
size_of-repeated zero = refl
size_of-repeated (suc n) = omega (arith, size_of-repeated n)

module_read-ends_example :
    (r : Read) × (module_read (repeated 2000) 1012 ≡ some r) × IsBounded 1012 r
module_read-ends_example =
    module_read-ends (repeated 2000) 1012 (omega (arith, size_of-repeated 2000))
