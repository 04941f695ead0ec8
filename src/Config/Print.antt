-- ===== src/Config/Print.antt =====
-- The two functions of src/sc_config.c that print: what they write to the terminal. The same lines go to the log.
use Prim.Native.Nat.{bit_and}
use agility_contest_serial_c.Base.{
  ◌^◌, Option, none, some, List, [], ◌∷◌, ◌++◌, ◌==◌, if◌then◌else◌, ℤ, ◌+ℤ◌, wrap32, unsigned,
  Text, codes, print_int,
}
use agility_contest_serial_c.Config.{Configuration, opmode_console}

-- a name and a value on a line
abbrev text_line : Text → Text → Text
text_line name value = name ++ (codes " " ++ (value ++ codes "\n"))

abbrev number_line : Text → ℤ → Text
unfolding print_int
number_line name z = text_line name (print_int z)

-- a NULL is printed as glibc does
abbrev pointer_line : Text → Option Text → Text
pointer_line name none = text_line name (codes "(null)")
pointer_line name (some value) = text_line name value

abbrev lines : List Text → Text
lines [] = []
lines (l ∷ ls) = l ++ lines ls

-- `if (config->opmode & OPMODE_CONSOLE)`
abbrev on_console : Configuration → Text → Text
unfolding unsigned
on_console c text = if bit_and (unsigned (2 ^ 32) c.opmode) opmode_console == 0 then [] else text

unfoldable pub print_status : Configuration → Text
unfolding print_int unsigned wrap32 ◌+ℤ◌
print_status c =
    let s = c.status in
    on_console c (
      lines (
        codes "Status information:\n"
        ∷ number_line (codes "Numero") s.numero
        ∷ number_line (codes "Faults") (wrap32 (s.faults +ℤ s.touchs))
        ∷ number_line (codes "Refusals") s.refusals
        ∷ number_line (codes "Eliminated") s.eliminated
        ∷ []))

unfoldable pub print_configuration : Configuration → Text
unfolding print_int unsigned
print_configuration c = on_console c (
    lines (
      codes "Configuration parameters:\n"
      ∷ text_line (codes "osname") c.osname
      ∷ text_line (codes "license_file") c.license_file
      ∷ text_line (codes "logfile") c.logfile
      ∷ number_line (codes "loglevel") c.loglevel
      ∷ number_line (codes "opmode") c.opmode
      ∷ number_line (codes "verbose") c.verbose
      ∷ pointer_line (codes "ajax_server") c.ajax_server
      ∷ text_line (codes "client_name") c.client_name
      ∷ text_line (codes "module") c.driver
      ∷ pointer_line (codes "comm_ipaddr") c.comm_ipaddr
      ∷ pointer_line (codes "comm_port") c.comm_port
      ∷ number_line (codes "baud_rate") c.baud_rate
      ∷ text_line (codes "QR comm_port") c.qrcomm_port
      ∷ number_line (codes "ring") c.ring
      ∷ number_line (codes "html port") c.web_port
      ∷ number_line (codes "fire browser") c.fire_browser
      ∷ number_line (codes "local_port") c.local_port
      ∷ []))
