-- ===== src/Relay.antt =====
-- src/serial_mgr.c and src/net_mgr.c: the managers that hand commands on to the loaded module of the
-- chronometer. The module's write is a parameter; it may read the configuration.
pub mod Echo
pub mod Keeps
mod Tests
use agility_contest_serial_c.Base.{
  ℕ, ◌+◌, Option, none, some, List, [], ◌∷◌, ◌++◌, if◌then◌else◌, ℤ, pos, negsuc, Text, codes,
  str_eq, Run, done, ◌>>=◌, get_elem?,
}
use agility_contest_serial_c.Config.{Configuration}
use agility_contest_serial_c.Tokens.{Tokens, with_default}
use agility_contest_serial_c.Dispatch.{ManagerHandler}

-- SC_SERIAL and SC_NETWORK
abbrev pub sc_serial : Text
sc_serial = codes "comm_server"

abbrev pub sc_network : Text
sc_network = codes "net_server"

-- module_write: the state of the module, the configuration, the tokens and their number
abbrev pub Write : Type 0 → Type 0
Write D = D → Configuration → Tokens → ℕ → Run (ℤ × D)

module _ {A D : Type 0} (driver : A → D) (put_driver : A → D → A) (module_write : Write D) where
  -- the result 0 for what the manager itself has sent, to avoid a loop of get and put
  unfoldable pub unless_own : Text → ManagerHandler A → ManagerHandler A
  unfolding str_eq
  unless_own self handler w t n = if str_eq self t.source then done (pos 0, w, t) else handler w t n

  -- `return entry_points.module_write(tokens,ntokens)`
  unfoldable pub write : ManagerHandler A
  write w t n = do
    (res, d) ← module_write (driver w.app) w.main.config t n
    done (res, record w { app = put_driver w.app d }, t)

  -- the same behind `if (ntokens==2) tokens[ntokens++]=value`
  unfoldable pub write_default : Text → ManagerHandler A
  unfolding write with_default
  write_default value w t n = let (t', n') = with_default value t n in write w t' n'

  -- `fail` and `ok` are not sent
  unfoldable pub not_sent : ManagerHandler A
  not_sent w t n = done (pos 0, w, t)

  -- `exit` asks for the end of the thread by its result
  unfoldable pub leave : ManagerHandler A
  leave w t n = done (negsuc 0, w, t)

  -- the entries that both tables hold, of the indices 0 to 12
  abbrev pub common_entries : Text → List (Option (ManagerHandler A))
  common_entries self =
      some (unless_own self (write_default (codes "0")))
      ∷ some (unless_own self write)
      ∷ some (unless_own self write)
      ∷ some (unless_own self not_sent)
      ∷ some (unless_own self not_sent)
      ∷ some (unless_own self write)
      ∷ some (unless_own self (write_default (codes "420")))
      ∷ some (unless_own self (write_default (codes "15")))
      ∷ some (unless_own self (write_default (codes "+")))
      ∷ some (unless_own self (write_default (codes "+")))
      ∷ some (unless_own self (write_default (codes "+")))
      ∷ some (unless_own self write)
      ∷ some (unless_own self write)
      ∷ []

  -- an array of entries that is NULL behind the last one
  abbrev pub entry_at : List (Option (ManagerHandler A)) → ℕ → Option (ManagerHandler A)
  entry_at es i = elim (get_elem? es i) [ none ↦ none | some e ↦ e ]

  -- the entries of the indices from 13
  abbrev pub serial_own : List (Option (ManagerHandler A))
  serial_own =
      none
      ∷ none
      ∷ some (unless_own sc_serial leave)
      ∷ none
      ∷ none
      ∷ none
      ∷ none
      ∷ some (unless_own sc_serial (write_default (codes "+")))
      ∷ some (unless_own sc_serial (write_default (codes "+")))
      ∷ some (unless_own sc_serial write)
      ∷ none
      ∷ none
      ∷ []

  abbrev pub serial_list : List (Option (ManagerHandler A))
  serial_list = common_entries sc_serial ++ serial_own

  -- the table of serial_mgr.c
  abbrev pub serial_entries : ℕ → Option (ManagerHandler A)
  serial_entries = entry_at serial_list

  -- the entries of the indices from 13
  abbrev pub net_own : List (Option (ManagerHandler A))
  net_own =
      none
      ∷ none
      ∷ some (unless_own sc_network leave)
      ∷ none
      ∷ none
      ∷ some (unless_own sc_network write)
      ∷ some (unless_own sc_network write)
      ∷ some (unless_own sc_network (write_default (codes "+")))
      ∷ some (unless_own sc_network (write_default (codes "+")))
      ∷ some (unless_own sc_network write)
      ∷ none
      ∷ none
      ∷ []

  abbrev pub net_list : List (Option (ManagerHandler A))
  net_list = common_entries sc_network ++ net_own

  -- the table of net_mgr.c
  abbrev pub net_entries : ℕ → Option (ManagerHandler A)
  net_entries = entry_at net_list
