-- ===== src/SerialPort.antt =====
-- src/modules/digican.c and src/modules/generic.c, which are the same there: module_init, module_open, module_close,
-- module_end and module_error, with libserialport as a parameter: which ports it finds and opens.
pub mod Device
pub mod Silent
pub mod Thread
mod Tests
use agility_contest_serial_c.Base.{
  ℕ, ◌-◌, Bool, true, false, Option, none, some, List, [], ◌∷◌, ◌++◌, leb, if◌then◌else◌, ℤ, Text,
  codes, take, length,
}
use agility_contest_serial_c.Config.{Configuration, Port}

pub data Mode : Type 0 where
  read_only : Mode
  read_write : Mode

-- sp_set_baudrate, sp_set_bits, sp_set_flowcontrol, sp_set_parity, sp_set_stopbits and sp_set_rts, with the
-- constants that are given to them
pub data Setting : Type 0 where
  baudrate : ℤ → Setting
  bits : ℕ → Setting
  flowcontrol_none : Setting
  parity_none : Setting
  stopbits : ℕ → Setting
  rts_on : Setting

-- The calls of libserialport that take, change or give back a port; one that fails changes none.
pub data SpCall : Type 0 where
  gets : Port → SpCall
  opens : Port → Mode → SpCall
  sets : Option Port → Setting → SpCall
  closes : Port → SpCall
  frees : Port → SpCall

-- sp_get_port_by_name, which gives NULL where it fails, and sp_open
pub record Libserialport : Type 0 where
  pub sp_get_port_by_name : Option Text → Option Port
  pub sp_open : Port → Mode → Bool

-- error_str and config, which the thread shares, and the calls so far
pub record Module : Type 0 where
  pub error_str : Text
  pub config : Configuration
  pub calls : List SpCall

-- snprintf(error_str,strlen(error_str),...): the size is the length of the text that is there
unfoldable pub write_error : Text → Module → Module
write_error message m = record m {
  error_str =
      if leb (length m.error_str) 0 then m.error_str else take (length m.error_str - 1) message;
}

abbrev pub log : List SpCall → Module → Module
log calls m = record m { calls = m.calls ++ calls }

-- %s of comm_port, as the GNU C library prints NULL
abbrev pub port_name : Configuration → Text
port_name c = elim c.comm_port [ none ↦ codes "(null)" | some name ↦ name ]

-- behind sp_get_port_by_name, which has set the port of the configuration
unfoldable pub judge_port : Option Port → Module → Bool × Module
unfolding write_error
judge_port none m =
    (false, write_error (codes "Cannot locate serial port '" ++ port_name m.config ++ codes "'") m)
judge_port (some p) m = (true, log (gets p ∷ []) m)

abbrev pub with_port : Option Port → Configuration → Configuration
with_port port c = record c { serial_port = port }

-- module_init on the configuration that it is given
unfoldable pub module_init : Libserialport → Configuration → Module → Bool × Module
unfolding judge_port
module_init sp cfg m =
    let port = sp.sp_get_port_by_name cfg.comm_port in
    judge_port port (record m { config = with_port port cfg })

unfoldable pub module_end : Module → Module
module_end m =
    let m' : Module = elim m.config.serial_port [ none ↦ m | some p ↦ log (frees p ∷ []) m ] in
    record m' { config = with_port none m'.config }

-- the calls behind sp_open
abbrev pub settings : ℤ → List Setting
settings baud_rate =
    baudrate baud_rate ∷ bits 8 ∷ flowcontrol_none ∷ parity_none ∷ stopbits 1 ∷ rts_on ∷ []

abbrev pub sets_all : Option Port → List Setting → List SpCall
sets_all port [] = []
sets_all port (s ∷ rest) = sets port s ∷ sets_all port rest

abbrev pub set_up : Module → Module
set_up m = log (sets_all m.config.serial_port (settings m.config.baud_rate)) m

-- behind sp_open
unfoldable pub judge_open : Bool → Port → Module → Bool × Module
unfolding write_error
judge_open true p m = (true, set_up (log (opens p read_write ∷ []) m))
judge_open false p m =
    (false, write_error (codes "Cannot open serial port " ++ port_name m.config) m)

unfoldable pub module_open : Libserialport → Module → Bool × Module
unfolding judge_open
module_open sp m = elim m.config.serial_port [
  | none ↦ (true, set_up m)
  | some p ↦ judge_open (sp.sp_open p read_write) p m
]

unfoldable pub module_close : Module → Module
module_close m = elim m.config.serial_port [ none ↦ m | some p ↦ log (closes p ∷ []) m ]

abbrev pub module_error : Module → Text
module_error m = m.error_str
