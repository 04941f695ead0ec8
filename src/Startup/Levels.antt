-- ===== src/Startup/Levels.antt =====
-- The log level across the ini file (src/sc_config.c) and the command line (src/main.c).
use agility_contest_serial_c.Base.{
  Bool, true, false, List, [], ◌∷◌, if◌then◌else◌, ℤ, pos, negsuc, ◌≤ℤ◌, rem_ℤ, atoi, Text, Option,
  none, some, arith,
}
use agility_contest_serial_c.Config.{Configuration, default_options, handler, parse_ini_file}
use agility_contest_serial_c.Startup.{
  Opt, Parsed, goes_on, usage, wrong, parse_option, parse_cmdline,
}

abbrev pub IsLevel : ℤ → Type 0
IsLevel z = (negsuc 7 ≤ℤ z) × (z ≤ℤ pos 8)

rem_9-IsLevel : (z : ℤ) → IsLevel (rem_ℤ z 9)
unfolding rem_ℤ
rem_9-IsLevel (pos n) = ground arith
rem_9-IsLevel (negsuc n) = ground arith

record Leveled (r : Configuration × ℤ) : Type 0 where
  level : IsLevel r.0.loglevel

Leveled-if :
    (b : Bool) (x y : Configuration × ℤ) → Leveled x → Leveled y → Leveled (if b then x else y)
Leveled-if true x y hx hy = hx
Leveled-if false x y hx hy = hy

handler-Leveled :
    (c : Configuration) (section name value : Text)
    → IsLevel c.loglevel
    → Leveled (handler c section name value)
unfolding handler
handler-Leveled c section name value h =
    let same : (c' : Configuration) (z : ℤ) → IsLevel c'.loglevel → Leveled (c', z) =
      λ c' z h'. record { level = h' } in
    let new = rem_9-IsLevel (atoi value) in search (Leveled-if, same, h, new) depth 24

parse_ini_file-IsLevel :
    (c : Configuration) (entries : Option (List (Text × Text × Text)))
    → IsLevel c.loglevel
    → IsLevel (parse_ini_file c entries).loglevel
unfolding parse_ini_file
parse_ini_file-IsLevel c none h = h
parse_ini_file-IsLevel c (some []) h = h
parse_ini_file-IsLevel c (some ((section, name, value) ∷ entries)) h =
    parse_ini_file-IsLevel (handler c section name value).0 (some entries)
      (handler-Leveled c section name value h).level

data ParsedLevel : Parsed → Type 0 where
  on : {c : Configuration} → IsLevel c.loglevel → ParsedLevel (goes_on c)
  off_usage : ParsedLevel usage
  off_wrong : ParsedLevel wrong

ParsedLevel-if :
    (b : Bool) (x y : Parsed) → ParsedLevel x → ParsedLevel y → ParsedLevel (if b then x else y)
ParsedLevel-if true x y hx hy = hx
ParsedLevel-if false x y hx hy = hy

parse_option-ParsedLevel :
    (c : Configuration) (o : Opt) → IsLevel c.loglevel → ParsedLevel (parse_option c o)
unfolding parse_option
parse_option-ParsedLevel c (option, optarg) h =
    let new = rem_9-IsLevel (atoi optarg) in
    search (ParsedLevel-if, on, off_usage, off_wrong, h, new) depth 24

-- what follows an option
abbrev behind : List Opt → Parsed → Parsed
unfolding parse_cmdline
behind options (goes_on c) = parse_cmdline c options
behind options usage = usage
behind options wrong = wrong

behind-ParsedLevel :
    (options : List Opt) (p : Parsed)
    → ((c : Configuration) → IsLevel c.loglevel → ParsedLevel (parse_cmdline c options))
    → ParsedLevel p
    → ParsedLevel (behind options p)
unfolding behind
behind-ParsedLevel options (goes_on c) next (on h) = next c h
behind-ParsedLevel options usage next h = off_usage
behind-ParsedLevel options wrong next h = off_wrong

parse_cmdline-ParsedLevel :
    (c : Configuration) (options : List Opt)
    → IsLevel c.loglevel
    → ParsedLevel (parse_cmdline c options)
unfolding parse_cmdline behind
parse_cmdline-ParsedLevel c [] h = on h
parse_cmdline-ParsedLevel c (o ∷ options) h =
    behind-ParsedLevel options (parse_option c o) (λ c' h'. parse_cmdline-ParsedLevel c' options h')
      (parse_option-ParsedLevel c o h)

-- the configuration, where there is one, has such a level
abbrev pub ResultLevel : Parsed → Type 0
ResultLevel (goes_on c) = IsLevel c.loglevel
ResultLevel usage = Unit
ResultLevel wrong = Unit

ParsedLevel-ResultLevel : {p : Parsed} → ParsedLevel p → ResultLevel p
ParsedLevel-ResultLevel (on h) = h
ParsedLevel-ResultLevel off_usage = tt
ParsedLevel-ResultLevel off_wrong = tt

-- Behind the defaults, any ini file and any command line the log level is from -8 to 8.
pub parse_cmdline-IsLevel :
    (file : Text) (entries : Option (List (Text × Text × Text))) (options : List Opt)
    → ResultLevel (parse_cmdline (parse_ini_file (default_options file) entries) options)
unfolding default_options
parse_cmdline-IsLevel file entries options = ParsedLevel-ResultLevel (
    parse_cmdline-ParsedLevel (parse_ini_file (default_options file) entries) options
      (parse_ini_file-IsLevel (default_options file) entries (ground arith)))
