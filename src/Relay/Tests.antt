-- ===== src/Relay/Tests.antt =====
-- The managers of modules at their own messages.
use agility_contest_serial_c.Base.{ℕ, suc, [], ◌∷◌, pos, Text, codes, done}
use agility_contest_serial_c.Tokens.{Tokens}
use agility_contest_serial_c.Dispatch.{World, ManagerHandler}
use agility_contest_serial_c.Relay.{Write, unless_own, write}
use agility_contest_serial_c.Relay.{write_default}
use agility_contest_serial_c.Relay.Keeps.{WriteTotal}
use agility_contest_serial_c.Samples.{main_0, tokens_of}

-- a module that counts what is written
abbrev counting : Write ℕ
counting d c t n = done (pos 0, suc d)

abbrev world_1 : World ℕ
world_1 = record { main = main_0; app = 0 }

abbrev driver : ℕ → ℕ
driver d = d

abbrev put_driver : ℕ → ℕ → ℕ
put_driver d e = e

abbrev stop_write : Text → ManagerHandler ℕ
stop_write self = unless_own driver put_driver counting self (write driver put_driver counting)

abbrev own_tokens : Text → Tokens
own_tokens self = tokens_of self (codes "stop") (codes "1200" ∷ [])

counting-Total : WriteTotal counting
counting-Total d c t n a = tt

abbrev walk_tokens : Tokens
walk_tokens = tokens_of (codes "web") (codes "walk") []

abbrev walk_write : Text → ManagerHandler ℕ
walk_write self =
    unless_own driver put_driver counting self
      (write_default driver put_driver counting (codes "420"))
