-- ===== src/Canometer/Command.antt =====
-- src/modules/canometroweb.c: module_write, which sends a command on to the device.
use agility_contest_serial_c.Base.{
  ℕ, Bool, true, false, Option, none, some, List, [], ◌∷◌, if◌then◌else◌, ℤ, pos, negsuc, ltb_ℤ,
  eqb_ℤ, div_ℤ, Text, codes, strcase_eq, atoi, print_int, Run, done, ◌>>=◌,
}
use agility_contest_serial_c.Config.{Configuration}
use agility_contest_serial_c.Tokens.{Tokens, arg}
use agility_contest_serial_c.Digican.{bounded}
use agility_contest_serial_c.Canometer.{ReadXml, parse_status_xml, parse_config_xml}
use agility_contest_serial_c.Canometer.Link.{
  Put, Request, ask, set, step, sendrec, request, synchronize_chrono,
}
use agility_contest_serial_c.Canometer.Poll.{Canometer, sem_wait, sem_post}

-- the commands that are only reported as unsupported
abbrev pub unsupported : List Text
unsupported =
    codes "int"
    ∷ codes "fail"
    ∷ codes "ok"
    ∷ codes "msg"
    ∷ codes "help"
    ∷ codes "version"
    ∷ codes "exit"
    ∷ codes "server"
    ∷ codes "ports"
    ∷ codes "turn"
    ∷ codes "clock"
    ∷ []

-- the commands that bring the counters of the device to those of the run
abbrev pub synchronized : List Text
synchronized = codes "fault" ∷ codes "refusal" ∷ codes "elim" ∷ codes "data" ∷ []

abbrev pub names : List Text → Text → Bool
names [] cmd = false
names (c ∷ cs) cmd = let rest = names cs cmd in if strcase_eq c cmd then true else rest

abbrev pub Outcome : Type 0 → Type 0
Outcome N = Run (Option (ℤ × Canometer N))

abbrev pub release : {N : Type 0} → ℤ → Canometer N → Outcome N
release res m = done (some (res, sem_post m))

-- the pages of the last request
abbrev pub no_page : Request
no_page = ask []

abbrev pub startstop : Request
startstop = ask (codes "startstop")

abbrev pub reset_request : Request
reset_request = step (codes "0") (codes "0")

abbrev pub minutes_of : Text → ℤ
unfolding atoi div_ℤ
minutes_of a = div_ℤ (atoi a) 60

module _ {N : Type 0} (put : Put N) (read_xml : ReadXml) where
  -- the end of module_write: the request that the branches have made up
  unfoldable pub last_request : Configuration → Canometer N → Request → Outcome N
  unfolding sendrec
  last_request c m r =
      let (result, net') = sendrec put c r m.net in
      elim result [
        | none ↦ release (negsuc 0) (record m { net = net' })
        | some answer ↦ release (pos 0) (record m { net = net' })
      ]

  -- walk: the walk time of the device is set in whole minutes where it differs
  unfoldable pub walk : Configuration → ℤ → Canometer N → Outcome N
  unfolding request last_request print_int
  walk c minutes m =
      if eqb_ℤ minutes (pos 0)
      then last_request c m reset_request
      else if eqb_ℤ m.cw_config.walktime minutes
      then last_request c m (step (codes "W") (codes "0"))
      else let setting =
          set (codes "configuracion_accion") (codes "Walktime") (bounded 16 (print_int minutes)) in
        last_request c
          (record m {
            cw_config = record m.cw_config { walktime = minutes };
            net = request put c setting m.net;
          })
          (step (codes "W") (codes "0"))

  -- fault, refusal, elim and data: where the synchronisation fails, the semaphore is not released
  unfoldable pub synchronize : Configuration → Canometer N → Outcome N
  unfolding synchronize_chrono last_request
  synchronize c m = do
    (res, cw, net') ← synchronize_chrono put read_xml c m.cw_data m.net
    if ltb_ℤ res (pos 0)
        then done (some (negsuc 0, record m { cw_data = cw; net = net' }))
        else last_request c (record m { cw_data = cw; net = net' }) no_page

  unfoldable pub read_config : Configuration → Canometer N → Outcome N
  unfolding sendrec parse_config_xml
  read_config c m =
      let (result, net') = sendrec put c (ask (codes "config_xml")) m.net in
      elim result [
        | none ↦ release (negsuc 0) (record m { net = net' })
        | some answer ↦ do
          parsed ← parse_config_xml read_xml m.cw_config answer
          release (pos 0) (record m {
            net = net';
            cw_config = elim parsed [ none ↦ m.cw_config | some setup ↦ setup ];
          })
      ]

  unfoldable pub read_status : Configuration → Canometer N → Outcome N
  unfolding sendrec parse_status_xml
  read_status c m =
      let (result, net') = sendrec put c (ask (codes "xml")) m.net in
      elim result [
        | none ↦ release (negsuc 0) (record m { net = net' })
        | some answer ↦ do
          parsed ← parse_status_xml read_xml m.cw_data answer
          release (pos 0)
              (record m { net = net'; cw_data = elim parsed [ none ↦ m.cw_data | some d ↦ d ] })
      ]

  -- what module_write does once it holds the semaphore: the chain of tests on the command
  unfoldable pub execute : Configuration → Tokens → Canometer N → Outcome N
  unfolding last_request walk synchronize read_config read_status strcase_eq atoi div_ℤ arg
  execute c t m =
      if strcase_eq (codes "start") t.cmd
      then last_request c m (if eqb_ℤ m.cw_data.running (pos 0) then startstop else no_page)
      else if strcase_eq (codes "stop") t.cmd
      then last_request c m (if eqb_ℤ m.cw_data.running (pos 1) then startstop else no_page)
      else if strcase_eq (codes "walk") t.cmd
      then (arg t.args >>= λ a. walk c (minutes_of a) m)
      else if strcase_eq (codes "down") t.cmd
      then last_request c m (step (codes "C") (codes "0"))
      else if names synchronized t.cmd
      then synchronize c m
      else if strcase_eq (codes "reset") t.cmd
      then last_request c m reset_request
      else if strcase_eq (codes "config") t.cmd
      then read_config c m
      else if strcase_eq (codes "status") t.cmd
      then read_status c m
      else if names unsupported t.cmd
      then last_request c m no_page
      else release (pos 0) m

  unfoldable pub module_write : Configuration → Canometer N → Tokens → ℕ → Outcome N
  unfolding sem_wait execute
  module_write c m t n = sem_wait m (execute c t)
