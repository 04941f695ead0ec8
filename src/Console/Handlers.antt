-- ===== src/Console/Handlers.antt =====
-- The handlers of src/console_mgr.c and their table: every command is printed on the terminal. The ports that
-- libserialport enumerates, and how printf writes milliseconds as seconds, are parameters.
pub mod Quiet
use agility_contest_serial_c.Base.{
  ℕ, zero, suc, ◌-◌, Option, none, some, List, [], ◌∷◌, ◌++◌, ◌==◌, if◌then◌else◌, ℤ, pos, ◌+ℤ◌,
  ◌-ℤ◌, div_ℤ, wrap32, wrap64, Text, codes, atoi, print_int, get_elem?, Run, done, fault, ◌>>=◌,
}
use agility_contest_serial_c.Config.{Status}
use agility_contest_serial_c.Config.Print.{print_status, print_configuration}
use agility_contest_serial_c.Tokens.{Tokens}
use agility_contest_serial_c.Parser.{Help, sc_help}
use agility_contest_serial_c.Dispatch.{World, ManagerHandler}

-- what is written at once: a text, or the help of src/parser.c
pub data Printed : Type 0 where
  writes : Text → Printed
  helps : Help → Printed

-- what has been written, the last first, the names of the ports, and %f of a time in seconds
pub record Terminal : Type 0 where
  pub printed : List Printed
  pub ports : List Text
  pub print_seconds : ℤ → Text

abbrev pub Handler : Type 0
Handler = ManagerHandler Terminal

-- a world in which something more is written
abbrev pub with_printed : Printed → World Terminal → World Terminal
with_printed x w = record w { app = record w.app { printed = x ∷ w.app.printed } }

-- `fprintf(...); return 0;`
abbrev pub say : Text → World Terminal → Tokens → Run (ℤ × World Terminal × Tokens)
say s w t = done (pos 0, with_printed (writes s) w, t)

-- %s of tokens[2], which is NULL behind the last token
abbrev shown_arg : List Text → Text
shown_arg [] = codes "(null)"
shown_arg (a ∷ rest) = a

abbrev all_faults : Status → ℤ
unfolding wrap32 ◌+ℤ◌
all_faults s = wrap32 (s.faults +ℤ s.touchs)

unfoldable pub console_mgr_start : Handler
console_mgr_start w t n =
    say (codes "Course run START " ++ ((if n == 2 then [] else shown_arg t.args) ++ codes "\n")) w t

unfoldable pub console_mgr_int : Handler
unfolding wrap64 ◌-ℤ◌
console_mgr_int w t n =
    let s = w.main.config.status in
    say
      (codes "Course run INT "
        ++ (shown_arg t.args
            ++ (codes "\nIntermediate time: "
                ++ (w.app.print_seconds (wrap64 (s.int_time -ℤ s.start_time))
                    ++ codes " seconds\n"))))
      w t

unfoldable pub console_mgr_stop : Handler
unfolding wrap64 ◌-ℤ◌
console_mgr_stop w t n =
    let s = w.main.config.status in
    say
      (codes "Course run STOP "
        ++ (shown_arg t.args
            ++ (codes "\nCourse time: "
                ++ (w.app.print_seconds (wrap64 (s.stop_time -ℤ s.start_time))
                    ++ codes " seconds\n"))))
      w t

unfoldable pub console_mgr_fail : Handler
console_mgr_fail w t n = say (codes "Sensor(s) failure noticed\n") w t

unfoldable pub console_mgr_ok : Handler
console_mgr_ok w t n = say (codes "Sensor(s) OK . Chronometer is ready\n") w t

-- `for (int n=3;n<ntokens;n++) fprintf(stderr," %s",tokens[n])`, with what is left to count
abbrev words : ℕ → List Text → Text
words zero args = []
words (suc k) [] = codes " (null)" ++ words k []
words (suc k) (a ∷ args) = codes " " ++ (a ++ words k args)

abbrev behind_first : List Text → List Text
behind_first [] = []
behind_first (a ∷ args) = args

unfoldable pub console_mgr_msg : Handler
console_mgr_msg w t n =
    say (codes "Received message:\n" ++ (words (n - 3) (behind_first t.args) ++ codes "\n")) w t

-- atoi of tokens[2], where there are three
abbrev pub number_or : ℤ → (ℤ → ℤ) → Tokens → ℕ → Run ℤ
unfolding atoi
number_or default f t n =
    if n == 3 then elim t.args [ [] ↦ fault | a ∷ rest ↦ done (f (atoi a)) ] else done default

abbrev pub walk_text : ℤ → Text
unfolding print_int
walk_text minutes = codes "Rquested " ++ (print_int minutes ++ codes " minutes course walk\n")

unfoldable pub console_mgr_walk : Handler
unfolding atoi print_int div_ℤ
console_mgr_walk w t n = do
  minutes ← number_or (pos 7) (λ z. div_ℤ z 60) t n
  say (walk_text minutes) w t

abbrev pub down_text : ℤ → Text
unfolding print_int
down_text seconds =
    codes "Starting " ++ (print_int seconds ++ codes " seconds countdown for start running\n")

unfoldable pub console_mgr_down : Handler
unfolding atoi print_int
console_mgr_down w t n = do seconds ← number_or (pos 15) (λ z. z) t n; say (down_text seconds) w t

unfoldable pub console_mgr_fault : Handler
unfolding print_int wrap32 ◌+ℤ◌
console_mgr_fault w t n =
    say
      (codes "Fault/Touch count is: "
        ++ (print_int (all_faults w.main.config.status) ++ codes "\n"))
      w t

unfoldable pub console_mgr_refusal : Handler
unfolding print_int
console_mgr_refusal w t n =
    say (codes "Refusal count is: " ++ (print_int w.main.config.status.refusals ++ codes "\n")) w t

unfoldable pub console_mgr_elim : Handler
unfolding print_int
console_mgr_elim w t n =
    say (codes "Eliminated status is: " ++ print_int w.main.config.status.eliminated) w t

unfoldable pub console_mgr_data : Handler
unfolding print_int wrap32 ◌+ℤ◌
console_mgr_data w t n =
    let s = w.main.config.status in
    say
      (codes "Received DATA. F:"
        ++ (print_int (all_faults s)
            ++ (codes " R:"
                ++ (print_int s.refusals
                    ++ (codes " E:" ++ (print_int s.eliminated ++ codes "\n"))))))
      w t

unfoldable pub console_mgr_reset : Handler
console_mgr_reset w t n = say (codes "Received RESET\n") w t

unfoldable pub console_mgr_help : Handler
unfolding sc_help
console_mgr_help w t n = do (res, help) ← sc_help t n; done (res, with_printed (helps help) w, t)

unfoldable pub console_mgr_version : Handler
console_mgr_version w t n = say (codes "Console_manager version:1.0.0\n") w t

unfoldable pub console_mgr_exit : Handler
console_mgr_exit w t n = say (codes "Exit requested") w t

-- %s of config->ajax_server
abbrev server_name : Option Text → Text
server_name none = codes "(null)"
server_name (some s) = s

unfoldable pub console_mgr_server : Handler
console_mgr_server w t n =
    say
      (codes "Tryng to connect to AgilityContest server at: "
        ++ (server_name w.main.config.ajax_server ++ codes "\n"))
      w t

abbrev port_lines : List Text → Text
port_lines [] = []
port_lines (p ∷ ps) = p ++ (codes "\n" ++ port_lines ps)

abbrev ports_text : List Text → Text
ports_text [] = codes "No available COMM ports found:\n"
ports_text (p ∷ ps) = codes "List of available COMM ports:\n" ++ port_lines (p ∷ ps)

unfoldable pub console_mgr_ports : Handler
console_mgr_ports w t n = say (ports_text w.app.ports) w t

unfoldable pub console_mgr_config : Handler
unfolding print_configuration
console_mgr_config w t n = say (print_configuration w.main.config) w t

unfoldable pub console_mgr_status : Handler
unfolding print_status
console_mgr_status w t n = say (print_status w.main.config) w t

unfoldable pub console_mgr_numero : Handler
unfolding print_int
console_mgr_numero w t n =
    say (codes "Entering dog number: " ++ (print_int w.main.config.status.numero ++ codes "\n")) w t

unfoldable pub console_mgr_bright : Handler
unfolding print_int
console_mgr_bright w t n =
    say (codes "Setting display bright: " ++ (print_int w.main.config.bright ++ codes "\n")) w t

unfoldable pub console_mgr_clock : Handler
console_mgr_clock w t n = say (codes "Entering clock mode") w t

unfoldable pub console_mgr_dorsal : Handler
console_mgr_dorsal w t n = say (codes "Entering dorsal " ++ shown_arg t.args) w t

unfoldable pub console_mgr_debug : Handler
unfolding print_int
console_mgr_debug w t n =
    say (codes "New debug level is: " ++ (print_int w.main.debug_level ++ codes "\n")) w t

-- the table, NULL behind its end
abbrev pub console_list : List Handler
console_list =
    console_mgr_start ∷ console_mgr_int ∷ console_mgr_stop ∷ console_mgr_fail ∷ console_mgr_ok
    ∷ console_mgr_msg ∷ console_mgr_walk ∷ console_mgr_down ∷ console_mgr_fault
    ∷ console_mgr_refusal ∷ console_mgr_elim ∷ console_mgr_data ∷ console_mgr_reset
    ∷ console_mgr_help ∷ console_mgr_version ∷ console_mgr_exit ∷ console_mgr_server
    ∷ console_mgr_ports ∷ console_mgr_config ∷ console_mgr_status ∷ console_mgr_numero
    ∷ console_mgr_bright ∷ console_mgr_clock ∷ console_mgr_debug ∷ console_mgr_dorsal ∷ []

abbrev pub console_entries : ℕ → Option Handler
console_entries i = get_elem? console_list i
