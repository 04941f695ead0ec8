-- ===== src/Samples.antt =====
-- States and commands on which the tests evaluate the definitions.
pub mod Server
pub mod Cipher
use agility_contest_serial_c.Base.{refl, List, [], ◌∷◌, some, true, pos, Text, done, inl, arith}
use agility_contest_serial_c.Config.{Configuration, default_options}
use agility_contest_serial_c.Tokens.{Tokens}
use agility_contest_serial_c.MainMgr.{Main}
use agility_contest_serial_c.MainMgr.Valid.{IsValid}
use agility_contest_serial_c.Dispatch.{World, Slot, ManagerHandler}

-- the state of the program behind its start
unfoldable pub config_0 : Configuration
unfolding default_options
config_0 = default_options []

abbrev pub main_0 : Main
main_0 = record { config = config_0; debug_level = pos 3 }

pub main_0-IsValid : IsValid main_0
unfolding config_0 default_options
main_0-IsValid = record {
  faults = ground arith;
  touchs = ground arith;
  refusals = ground arith;
  numero = ground arith;
  eliminated = inl refl;
  bright = ground arith;
  level = ground arith;
}

abbrev pub World0 : Type 0
World0 = World (Unit {0})

abbrev pub world_0 : World0
world_0 = record { main = main_0; app = tt }

-- a manager that accepts every command
abbrev pub accepts : ManagerHandler (Unit {0})
accepts w t n = done (pos 0, w, t)

abbrev pub slots_0 : List (Slot (Unit {0}))
slots_0 = record { alive = true; entries = some (λ i. some accepts) } ∷ []

-- the tokens of a command
abbrev pub tokens_of : Text → Text → List Text → Tokens
tokens_of source cmd args = record { source = source; cmd = cmd; args = args }
