-- ===== src/Startup/Tests.antt =====
-- The start at a concrete command line.
use agility_contest_serial_c.Base.{
  ◌≡◌, refl, true, none, some, List, [], ◌∷◌, Text, starts_with, arith, pos, wrap32, unsigned,
  codes, str_eq, strcase_eq, tolower, isdigit, done,
}
use agility_contest_serial_c.Config.{Configuration, default_options, or_mode, parse_ini_file}
use agility_contest_serial_c.Startup.{
  Outside, Start, loops, startup, run_parsed, parse_cmdline, parse_option, fix_name, isalnum,
  start_threads, loop_with, threads_of, mode_of, options_of, check_license,
}
use agility_contest_serial_c.Startup.Levels.{ResultLevel, parse_cmdline-IsLevel}
use agility_contest_serial_c.Startup.Licensed.{HoldsLicense, licensed_by, check_license-decision}
use agility_contest_serial_c.License.{
  Files, default_unique_id, retrieve_unique_id, id_from_file, sysini_entries, replaced,
}
use agility_contest_serial_c.License.Search.{Member}
use agility_contest_serial_c.License.Decrypt.Chunks.{license_file_of}
use agility_contest_serial_c.Tools.{str_replace, replace_loop, cut}
use agility_contest_serial_c.Samples.{config_0}
use agility_contest_serial_c.Samples.Cipher.{crypto, pad, pad-Encrypts, hash}

abbrev outside : Outside
outside = record { file_exists = λ f. true; read_license = λ f. done none; default_file = [] }

-- the web page and the server are connected
abbrev started : Start
started =
    loops (record config_0 { client_name = codes "my_chrono"; opmode = pos 12 })
      ((2, codes "web_server") ∷ (3, codes "ac_server") ∷ [])

starts : startup outside config_0 ((b'n', codes "my chrono") ∷ []) ≡ done started
unfolding startup run_parsed parse_cmdline parse_option fix_name isalnum isdigit start_threads
    loop_with threads_of mode_of or_mode wrap32 unsigned str_eq strcase_eq tolower config_0
    default_options
starts = refl

parse_cmdline-IsLevel_example :
    ResultLevel
      (parse_cmdline (parse_ini_file (default_options []) none) ((b'D', codes "-30") ∷ []))
parse_cmdline-IsLevel_example = parse_cmdline-IsLevel [] none ((b'D', codes "-30") ∷ [])

abbrev members : List Member
members = (codes "options", codes "100001000000") ∷ []

-- the license in chunks of five bytes
abbrev parts : List Text
parts =
    codes "{\"opt"
    ∷ codes "ions\""
    ∷ codes ":\"100"
    ∷ codes "00100"
    ∷ codes "0000\""
    ∷ codes "}"
    ∷ []

abbrev iv : Text
iv = codes "0123456789abcdef"

abbrev files : Files
files = record {
  file_exists = λ f. true;
  ini_entries = λ f. [];
  base64_decode = λ s. s;
  base64_decode_file = λ f.
      some
        (license_file_of crypto pad (λ key iv m. m) pad-Encrypts hash iv default_unique_id parts);
  read_logo = λ f. none;
}

default_id : retrieve_unique_id files (codes "here") ≡ done default_unique_id
unfolding retrieve_unique_id id_from_file sysini_entries replaced str_replace replace_loop cut
    starts_with
default_id = refl

held : HoldsLicense files crypto pad (λ key iv m. m) pad-Encrypts (codes "here") members
held = record {
  hash = hash;
  iv = iv;
  unique_id = default_unique_id;
  chunks = parts;
  bytes = refl;
  same_id = default_id;
  hash_length = refl;
  iv_length = refl;
  id_string = refl;
  text_string = refl;
  some_chunk = omega arith;
  all_chunks = omega arith;
  text = refl;
  short = omega arith;
}

abbrev local : Configuration
local = record config_0 { license_file = codes "here" }

check_license-decision_example :
    check_license (licensed_by files crypto true []) local ≡ done (some local, pos 0)
unfolding options_of str_eq
check_license-decision_example =
    check_license-decision files crypto pad (λ key iv m. m) pad-Encrypts [] local members
      (codes "100001000000") refl held ((refl, refl), tt) refl
