-- ===== src/Parser.antt =====
-- src/parser.c: the table of commands, the search in it, and the help command.
pub mod Index
mod Tests
use Prim.Native.String.{String}
use agility_contest_serial_c.Base.{
  ℕ, suc, ◌+◌, Option, none, some, List, [], ◌∷◌, ltb, if◌then◌else◌, ℤ, pos, negsuc, Text, codes,
  str_eq, Run, done, fault, ◌>>=◌,
}
use agility_contest_serial_c.Tokens.{Tokens, arg}

-- command_t
pub record Command : Type 0 where
  pub index : ℕ
  pub cmd : Text
  pub desc : String
  pub usage : String

abbrev pub command : ℕ → String → String → String → Command
command index cmd desc usage = record { index = index; cmd = codes cmd; desc = desc; usage = usage }

-- The table up to its last entry, of index -1, which ends every search.
abbrev pub command_list : List Command
command_list =
    command 0 "start" "Start of course run" "[miliseconds] {0}"
    ∷ command 1 "int" "Intermediate time mark" "<miliseconds>"
    ∷ command 2 "stop" "End of course run" "<miliseconds>"
    ∷ command 3 "fail" "Sensor faillure detected" ""
    ∷ command 4 "ok" "Sensor recovery. Chrono ready" ""
    ∷ command 5 "msg" "Show message on chrono display" "<seconds> <message> [seconds]"
    ∷ command 6 "walk" "Course walk (0:stop)" "<seconds> {420}"
    ∷ command 7 "down" "Start 15 seconds countdown" ""
    ∷ command 8 "fault" "Mark fault (+/-/#)" "< + | - | num {+}>"
    ∷ command 9 "refusal" "Mark refusal (+/-/#)" "< + | - | num {+}>"
    ∷ command 10 "elim" "Mark elimination [+-]" "[ + | - ] {+}"
    ∷ command 11 "data" "Set course fault:ref:disq info" "<faults>:<refulsals>:<disq>"
    ∷ command 12 "reset" "Reset chronometer and countdown" ""
    ∷ command 13 "help" "show command list" "[cmd]"
    ∷ command 14 "version" "Show software version" ""
    ∷ command 15 "exit" "End program (from console)" ""
    ∷ command 16 "server" "Set server IP address" "<x.y.z.t> {0.0.0.0}"
    ∷ command 17 "ports" "Show available serial ports" ""
    ∷ command 18 "config" "List configuration parameters" ""
    ∷ command 19 "status" "Show Fault:Refusal:Elim state" ""
    ∷ command 20 "turn" "Set current dog order number [+-#]" "[ + | - | num ] {+}"
    ∷ command 21 "bright" "Set display bright (0..9) [+-#]" "[ + | - | num ] {+} 0:off"
    ∷ command 22 "clock" "Enter clock mode" "[ hh:mm:ss ] {current time}"
    ∷ command 23 "debug" "Get/Set debug level" "[ new_level ]"
    ∷ []

-- The loop of the main loop that looks a command up: its position, none for -1.
unfoldable pub find_from : ℕ → Text → List Command → Option ℕ
unfolding str_eq
find_from n s [] = none
find_from n s (c ∷ cs) = if str_eq c.cmd s then some n else find_from (suc n) s cs

unfoldable pub find_index : Text → Option ℕ
unfolding find_from
find_index s = find_from 0 s command_list

-- What sc_help writes.
pub data Help : Type 0 where
  describe : Command → Help
  not_found : Text → Help
  listing : List Command → Help

unfoldable pub find_command : Text → List Command → Option Command
unfolding str_eq
find_command s [] = none
find_command s (c ∷ cs) = if str_eq c.cmd s then some c else find_command s cs

abbrev pub help_for : Text → ℤ × Help
help_for a = elim (find_command a command_list) [
  | some c ↦ (pos 0, describe c)
  | none ↦ (pos 1, not_found a)
]

-- sc_help: the result and the text
unfoldable pub sc_help : Tokens → ℕ → Run (ℤ × Help)
unfolding arg find_command
sc_help t n =
    if ltb 2 n then (do a ← arg t.args; done (help_for a)) else done (pos 0, listing command_list)

unfoldable pub sc_exit : ℤ
sc_exit = negsuc 0
