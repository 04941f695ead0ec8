-- ===== src/Canometer/Start.antt =====
-- src/modules/canometroweb.c: module_init and module_open. libcurl and the SOAP library are parameters: whether
-- they can be started.
use agility_contest_serial_c.Base.{
  Bool, Option, none, some, if◌then◌else◌, ℤ, pos, negsuc, Text, codes, print_int, Run, done, ◌>>=◌,
}
use agility_contest_serial_c.Config.{Configuration}
use agility_contest_serial_c.Digican.{bounded}
use agility_contest_serial_c.Canometer.{ReadXml, parse_status_xml, parse_config_xml}
use agility_contest_serial_c.Canometer.Link.{Put, Request, ask, set, step, sendrec}
use agility_contest_serial_c.Canometer.Poll.{Canometer}

-- whether curl_global_init and soap_client_init_args succeed
pub record Libraries : Type 0 where
  pub curl : Bool
  pub soap : Bool

module _ {N : Type 0} (put : Put N) (read_xml : ReadXml) where
  -- The result and the state. The semaphore is created first, with the value 1.
  unfoldable pub module_init : Libraries → Configuration → Canometer N → ℤ × Canometer N
  unfolding sendrec
  module_init libs c m =
      let (check, net') = sendrec put c (ask (codes "config_xml")) m.net in
      let asked = record m { sem = 1; net = net' } in
      if libs.curl
      then elim check [
        | none ↦ (negsuc 0, asked)
        | some answer ↦ if libs.soap then (pos 0, asked) else (negsuc 0, asked)
      ]
      else (negsuc 10, record m { sem = 1 })

  -- the request for the ring, whose number is cut to three characters, and the one for a reset
  abbrev pub ring_request : Configuration → Request
  unfolding print_int
  ring_request c = set (codes "configuracion_accion") (codes "Ring") (bounded 4 (print_int c.ring))

  abbrev pub reset_request : Request
  reset_request = step (codes "0") (codes "0")

  -- a document that is not parsed leaves the data as it is
  abbrev pub parsed_or : {D : Type 0} → D → Option D → D
  parsed_or old none = old
  parsed_or old (some new) = new

  -- behind the answer with the status
  unfoldable pub open_status : Canometer N → Option Text × N → Run (ℤ × Canometer N)
  unfolding parse_status_xml
  open_status m (none, net) = done (negsuc 0, record m { net = net })
  open_status m (some answer, net) = do
    d ← parse_status_xml read_xml m.cw_data answer
    done (pos 0, record m { cw_data = parsed_or m.cw_data d; net = net })

  -- behind the answer with the configuration
  unfoldable pub open_config : Configuration → Canometer N → Option Text × N → Run (ℤ × Canometer N)
  unfolding parse_config_xml open_status sendrec
  open_config c m (none, net) = done (negsuc 0, record m { net = net })
  open_config c m (some answer, net) = do
    s ← parse_config_xml read_xml m.cw_config answer
    open_status (record m { cw_config = parsed_or m.cw_config s; net = net })
        (sendrec put c (ask (codes "xml")) net)

  -- behind the answer to the reset
  unfoldable pub open_reset : Configuration → Canometer N → Option Text × N → Run (ℤ × Canometer N)
  unfolding open_config sendrec
  open_reset c m (none, net) = done (negsuc 0, record m { net = net })
  open_reset c m (some answer, net) = open_config c m (sendrec put c (ask (codes "config_xml")) net)

  -- behind the answer to the ring
  unfoldable pub open_ring : Configuration → Canometer N → Option Text × N → Run (ℤ × Canometer N)
  unfolding open_reset sendrec
  open_ring c m (none, net) = done (negsuc 0, record m { net = net })
  open_ring c m (some answer, net) = open_reset c m (sendrec put c reset_request net)

  unfoldable pub module_open : Configuration → Canometer N → Run (ℤ × Canometer N)
  unfolding open_ring sendrec print_int
  module_open c m = open_ring c m (sendrec put c (ring_request c) m.net)
