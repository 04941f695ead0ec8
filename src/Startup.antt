-- ===== src/Startup.antt =====
-- src/main.c in front of its loop: the command line, the license and the threads that are started.
-- getopt_long, the files and the license are parameters.
pub mod Slots
pub mod Names
pub mod Levels
pub mod Licensed
mod Tests
use Prim.Native.Nat.{bit_and}
use agility_contest_serial_c.Base.{
  ℕ, ◌+◌, ◌-◌, ◌*◌, ◌^◌, ◌%◌, Bool, true, false, ◌&&◌, ◌||◌, not, Option, none, some, List, [], ◌∷◌,
  ◌++◌, ◌==◌, leb, if◌then◌else◌, ℤ, pos, negsuc, eqb_ℤ, rem_ℤ, unsigned, Text, codes, str_eq,
  strcase_eq, isdigit, atoi, skip_space, map, Run, done, fault, ◌>>=◌,
}
use agility_contest_serial_c.Config.{Configuration, or_mode, opmode_console}

-- an option of the command line: its letter and its argument
abbrev pub Opt : Type 0
Opt = ℕ × Text

-- what an option leads to: the configuration, the end of the program behind the usage, or an error
pub data Parsed : Type 0 where
  goes_on : Configuration → Parsed
  usage : Parsed
  wrong : Parsed

abbrev pub opmode_find : ℕ
opmode_find = 32

unfoldable pub parse_option : Configuration → Opt → Parsed
unfolding atoi rem_ℤ or_mode
parse_option c (option, optarg) =
    if option == b'm'
    then goes_on (record c { driver = optarg })
    else if option == b'i'
    then goes_on (record c { comm_ipaddr = some optarg })
    else if option == b'd'
    then goes_on (record c { comm_port = some optarg })
    else if option == b'Q'
    then goes_on (record c { qrcomm_port = optarg })
    else if option == b'b'
    then goes_on (record c { baud_rate = atoi optarg })
    else if option == b'w'
    then goes_on (record c { web_port = atoi optarg })
    else if option == b's'
    then goes_on (record c { ajax_server = some optarg })
    else if option == b'n'
    then goes_on (record c { client_name = optarg })
    else if option == b'r'
    then goes_on (record c { ring = atoi optarg })
    else if option == b'D'
    then goes_on (record c { loglevel = rem_ℤ (atoi optarg) 9 })
    else if option == b'L'
    then goes_on (record c { logfile = optarg })
    else if option == b'l'
    then goes_on (record c { license_file = optarg })
    else if option == b'v'
    then goes_on (record c { verbose = pos 1 })
    else if option == b'q'
    then goes_on (record c { verbose = pos 0 })
    else if option == b'c'
    then goes_on (record c { opmode = or_mode c.opmode opmode_console })
    else if option == b'f'
    then goes_on (record c { opmode = pos opmode_find })
    else if option == b'h' || option == b'?'
    then usage
    else wrong

unfoldable pub parse_cmdline : Configuration → List Opt → Parsed
unfolding parse_option
parse_cmdline c [] = goes_on c
parse_cmdline c (o ∷ options) = elim (parse_option c o) [
  | goes_on c' ↦ parse_cmdline c' options
  | usage ↦ usage
  | wrong ↦ wrong
]

unfoldable pub isalnum : ℕ → Bool
unfolding isdigit
isalnum c = isdigit c || (leb b'A' c && leb c b'Z') || (leb b'a' c && leb c b'z')

-- `if (!isalnum(*p) || !isascii(*p)) *p='_'` for every character
unfoldable pub fix_name : Text → Text
unfolding isalnum
fix_name = map (λ c. if not (isalnum c) || leb 128 c then b'_' else c)

-- the bits at the front of a text, read by strtol in base 2
abbrev bits_from : ℕ → Text → ℕ
bits_from acc [] = acc
bits_from acc (c ∷ s) =
    let rest = bits_from (acc * 2 + (c - 48)) s in if leb b'0' c && leb c b'1' then rest else acc

abbrev bits_clamped : ℕ → Text → ℕ
bits_clamped limit s = let n = bits_from 0 s in if leb limit n then limit else n

abbrev signed_bits : Text → ℕ
signed_bits [] = 0
signed_bits (c ∷ s) =
    if c == b'-'
    then (2 ^ 64 - bits_clamped (2 ^ 63) s) % 2 ^ 64
    else bits_clamped (2 ^ 63 - 1) (if c == b'+' then s else c ∷ s)

-- the bits of strtol(options,NULL,2)
unfoldable pub options_of : Text → ℕ
unfolding skip_space
options_of s = signed_bits (skip_space s)

-- What the start reads of the outside: which files exist, and the options of the license in a file, none when
-- it cannot be read, and NULL when it has none.
pub record Outside : Type 0 where
  pub file_exists : Text → Bool
  pub read_license : Text → Run (Option (Option Text))
  pub default_file : Text

abbrev pub Thread : Type 0
Thread = ℕ × Text

-- how the start ends: with the result of main, or with the threads, in front of the loop
pub data Start : Type 0 where
  returns : ℤ → Start
  loops : Configuration → List Thread → Start

-- the license file: the one that is configured, the default one or the local one
unfoldable pub find_license : Outside → Text → Option Text
find_license o file =
    if o.file_exists file
    then some file
    else if o.file_exists o.default_file
    then some o.default_file
    else if o.file_exists (codes "registration.info")
    then some (codes "registration.info")
    else none

-- What follows from the options of the license in a file. NULL options are read by strtol.
unfoldable pub judge_license :
    Configuration → Text → Option (Option Text) → Run (Option Configuration × ℤ)
unfolding options_of
judge_license c file none = done (none, pos 1)
judge_license c file (some none) = fault
judge_license c file (some (some options)) =
    if bit_and (options_of options) 0x840 == 0
    then done (none, pos 1)
    else done (some (record c { license_file = file }), pos 0)

-- the configuration with the file that was found, or the result of main
unfoldable pub check_license : Outside → Configuration → Run (Option Configuration × ℤ)
unfolding find_license judge_license
check_license o c = elim (find_license o c.license_file) [
  | none ↦ done (none, negsuc 0)
  | some file ↦ (do options ← o.read_license file; judge_license c file options)
]

abbrev is_some : Option Text → Bool
is_some none = false
is_some (some s) = true

-- the bit of the console in the mode
abbrev has_console : Configuration → Bool
unfolding unsigned
has_console c = not (bit_and (unsigned (2 ^ 32) c.opmode) opmode_console == 0)

abbrev is_canometer : Configuration → Bool
unfolding str_eq
is_canometer c = str_eq c.driver (codes "canometroweb")

abbrev thread_if : Bool → Thread → List Thread
thread_if b t = if b then t ∷ [] else []

-- the server as the thread sees it: "none" in whatever case is NULL
abbrev server_of : Option Text → Option Text
unfolding strcase_eq
server_of none = none
server_of (some s) = if strcase_eq (codes "none") s then none else some s

-- the threads in the order of their start
unfoldable pub threads_of : Configuration → List Thread
unfolding str_eq strcase_eq unsigned
threads_of c =
    thread_if (has_console c) (0, codes "user_server")
    ++ (thread_if (is_some c.comm_port && not (is_canometer c)) (1, codes "comm_server")
        ++ (thread_if (is_some c.comm_ipaddr && is_canometer c) (1, codes "net_server")
            ++ (thread_if (not (eqb_ℤ c.web_port (pos 0))) (2, codes "web_server")
                ++ (thread_if (is_some (server_of c.ajax_server)) (3, codes "ac_server")
                    ++ thread_if (not (strcase_eq c.qrcomm_port (codes "none")))
                        (4, codes "qrcode_server")))))

abbrev add_mode : Bool → ℕ → ℤ → ℤ
unfolding or_mode
add_mode b mask m = if b then or_mode m mask else m

-- the bits that the start of the threads sets
unfoldable pub mode_of : Configuration → ℤ
unfolding or_mode str_eq strcase_eq
mode_of c = add_mode (not (strcase_eq c.qrcomm_port (codes "none"))) 16 (
    add_mode (is_some (server_of c.ajax_server)) 8 (
      add_mode (not (eqb_ℤ c.web_port (pos 0))) 4 (
        add_mode (is_some c.comm_ipaddr && is_canometer c) 1
          (add_mode (is_some c.comm_port && not (is_canometer c)) 1 c.opmode))))

unfoldable pub loop_with : Configuration → Start
unfolding threads_of mode_of strcase_eq
loop_with c =
    loops (record c { ajax_server = server_of c.ajax_server; opmode = mode_of c }) (threads_of c)

-- behind the name of the client
unfoldable pub start_threads : Outside → Configuration → Run Start
unfolding check_license loop_with str_eq unsigned
start_threads o c =
    if not (bit_and (unsigned (2 ^ 32) c.opmode) opmode_find == 0)
    then done (returns (pos 0))
    else elim c.ajax_server [
      | none ↦ fault
      | some server ↦
          if str_eq server (codes "none")
          then (do
            (licensed, res) ← check_license o c
            elim licensed [ none ↦ done (returns res) | some c' ↦ done (loop_with c') ])
          else done (loop_with c)
    ]

-- behind the command line
unfoldable pub run_parsed : Outside → Parsed → Run Start
unfolding fix_name start_threads
run_parsed o (goes_on c) = start_threads o (record c { client_name = fix_name c.client_name })
run_parsed o usage = done (returns (pos 0))
run_parsed o wrong = done (returns (pos 1))

-- main up to its loop, behind the defaults and the ini file
unfoldable pub startup : Outside → Configuration → List Opt → Run Start
unfolding parse_cmdline run_parsed
startup o c options = run_parsed o (parse_cmdline c options)
