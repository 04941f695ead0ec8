-- ===== src/Config.antt =====
-- include/sc_config.h and src/sc_config.c: the configuration with the state of the run, its defaults, and
-- the handler of the ini file. The two printing functions are output only.
pub mod Print
use Prim.Native.Nat.{bit_or}
use agility_contest_serial_c.Base.{
  ℕ, ◌-◌, ◌%◌, ◌^◌, ◌&&◌, Option, none, some, List, [], ◌∷◌, if◌then◌else◌, ℤ, pos, negsuc, eqb_ℤ,
  wrap32, rem_ℤ, Text, codes, str_eq, atoi,
}

-- sc_data_t
pub record Status : Type 0 where
  pub start_time : ℤ
  pub stop_time : ℤ
  pub int_time : ℤ
  pub faults : ℤ
  pub touchs : ℤ
  pub refusals : ℤ
  pub eliminated : ℤ
  pub notpresent : ℤ
  pub numero : ℤ
  pub dorsal : ℤ
  pub perro : ℤ
  pub equipo : ℤ
  pub session_id : ℤ
  pub prueba : ℤ
  pub jornada : ℤ
  pub manga : ℤ
  pub tanda : ℤ

-- A pointer to a port of libserialport.
abbrev pub Port : Type 0
Port = ℕ

pub record Configuration : Type 0 where
  pub osname : Text
  pub local_port : ℤ
  pub logfile : Text
  pub loglevel : ℤ
  pub verbose : ℤ
  pub fire_browser : ℤ
  pub ajax_server : Option Text
  pub client_name : Text
  pub web_port : ℤ
  pub driver : Text
  pub ring : ℤ
  pub comm_ipaddr : Option Text
  pub comm_port : Option Text
  pub baud_rate : ℤ
  pub qrcomm_port : Text
  pub bright : ℤ
  pub opmode : ℤ
  pub serial_port : Option Port
  pub qrcode_port : Option Port
  pub license_file : Text
  pub status : Status

-- the status as default_options leaves it: what it does not set is 0 by calloc
abbrev pub default_status : Status
default_status = record {
  start_time = negsuc 0;
  stop_time = pos 0;
  int_time = pos 0;
  faults = pos 0;
  touchs = pos 0;
  refusals = pos 0;
  eliminated = pos 0;
  notpresent = pos 0;
  numero = pos 0;
  dorsal = pos 0;
  perro = pos 0;
  equipo = pos 0;
  session_id = pos 0;
  prueba = pos 0;
  jornada = pos 0;
  manga = pos 0;
  tanda = pos 0;
}

-- default_options on a system other than Windows, where calloc and strdup succeed
unfoldable pub default_options : Text → Configuration
default_options license_file = record {
  osname = codes "Linux";
  local_port = pos 8880;
  logfile = codes "./serial_chrono.log";
  loglevel = pos 3;
  verbose = pos 0;
  fire_browser = pos 1;
  ajax_server = some (codes "localhost");
  client_name = codes "generic";
  web_port = pos 8080;
  driver = codes "generic";
  ring = pos 1;
  comm_ipaddr = some (codes "192.168.2.1");
  comm_port = none;
  baud_rate = pos 9600;
  qrcomm_port = codes "none";
  bright = pos 0;
  opmode = pos 0;
  serial_port = none;
  qrcode_port = none;
  license_file = license_file;
  status = default_status;
}

abbrev pub opmode_console : ℕ
opmode_console = 2

-- The bits of an `int`.
abbrev bits32 : ℤ → ℕ
bits32 (pos n) = n % 2 ^ 32
bits32 (negsuc n) = 2 ^ 32 - 1 - n % 2 ^ 32

-- `m |= mask`
unfoldable pub or_mode : ℤ → ℕ → ℤ
unfolding wrap32
or_mode m mask = wrap32 (pos (bit_or (bits32 m) mask))

abbrev pub is_nonzero : ℤ → ℤ
is_nonzero z = if eqb_ℤ z (pos 0) then pos 0 else pos 1

-- The handler of ini_parse: the configuration and the result, 0 for an unknown entry.
unfoldable pub handler : Configuration → Text → Text → Text → Configuration × ℤ
unfolding str_eq atoi rem_ℤ or_mode
handler c section name value =
    let is = λ (s n : Text). str_eq section s && str_eq name n in
    let n : ℤ = atoi value in
    if is (codes "Debug") (codes "logfile")
    then (record c { logfile = value }, pos 1)
    else if is (codes "Debug") (codes "loglevel")
    then (record c { loglevel = rem_ℤ n 9 }, pos 1)
    else if is (codes "Debug") (codes "opmode")
    then (record c { opmode = rem_ℤ n 0x1F }, pos 1)
    else if is (codes "Debug") (codes "verbose")
    then (record c { verbose = is_nonzero n }, pos 1)
    else if is (codes "Global") (codes "license_file")
    then (record c { license_file = value }, pos 1)
    else if is (codes "Global") (codes "local_port")
    then (record c { local_port = n }, pos 1)
    else if is (codes "Global") (codes "console")
    then (
      record c { opmode = or_mode c.opmode (if eqb_ℤ n (pos 0) then 0 else opmode_console) },
      pos 1,
    )
    else if is (codes "Global") (codes "ring")
    then (record c { ring = n }, pos 1)
    else if is (codes "Server") (codes "ajax_server")
    then (record c { ajax_server = some value }, pos 1)
    else if is (codes "Server") (codes "client_name")
    then (record c { client_name = value }, pos 1)
    else if is (codes "Serial") (codes "module")
    then (record c { driver = value }, pos 1)
    else if is (codes "Serial") (codes "comm_ipaddr")
    then (record c { comm_ipaddr = some value }, pos 1)
    else if is (codes "Serial") (codes "comm_port")
    then (record c { comm_port = some value }, pos 1)
    else if is (codes "Serial") (codes "baud_rate")
    then (record c { baud_rate = n }, pos 1)
    else if is (codes "Serial") (codes "qrcomm_port")
    then (record c { qrcomm_port = value }, pos 1)
    else if is (codes "Web") (codes "web_port")
    then (record c { web_port = n }, pos 1)
    else if is (codes "Web") (codes "fire_browser")
    then (record c { fire_browser = is_nonzero n }, pos 1)
    else (c, pos 0)

-- parse_ini_file: ini_parse hands each entry of the file to the handler; without a file it fails and
-- the configuration stays as it is.
unfoldable pub parse_ini_file : Configuration → Option (List (Text × Text × Text)) → Configuration
unfolding handler
parse_ini_file c none = c
parse_ini_file c (some []) = c
parse_ini_file c (some ((section, name, value) ∷ entries)) =
    parse_ini_file (handler c section name value).0 (some entries)
