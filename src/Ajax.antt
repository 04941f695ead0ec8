-- ===== src/Ajax.antt =====
-- src/ajax_mgr.c, the handlers, and ajax_put_event of src/ajax_curl.c: the event that a command becomes, as
-- the address that is asked of the server. libcurl and the clock are parameters.
pub mod Address
pub mod Handlers
pub mod Thread
pub mod Turn
pub mod Bytes
pub mod Query
pub mod Fields
pub mod Relayed
mod Tests
use agility_contest_serial_c.Base.{
  ℕ, ◌^◌, Bool, Option, none, some, [], ◌++◌, ltb, if◌then◌else◌, ℤ, pos, negsuc, unsigned, Text,
  codes, print_int, print_nat, length, Run, done, fault,
}
use agility_contest_serial_c.Config.{Configuration, Status}
use agility_contest_serial_c.Tools.{get_session_name}
use agility_contest_serial_c.Events.{shown}

-- SC_AJAXSRV
abbrev pub sc_ajax : Text
sc_ajax = codes "ac_server"

-- sc_extra_data_t
pub record Extra : Type 0 where
  pub oper : Text
  pub value : Text
  pub start : ℤ
  pub stop : ℤ
  pub tiempo : ℤ

-- what most commands fill in
abbrev pub value_only : Text → Extra
value_only v = record { oper = []; value = v; start = pos 0; stop = pos 0; tiempo = pos 0 }

-- %lu of a time_t
unfoldable pub print_time : ℤ → Text
unfolding print_nat unsigned
print_time z = print_nat (unsigned (2 ^ 64) z)

-- sprintf of "key%s" or of a format with a number, and what is printed behind it
abbrev pub print_field : Text → Text → Text → Text
print_field key value behind = key ++ (value ++ behind)

-- the parameters of every event, and what follows them
unfoldable pub print_event : Configuration → Text → ℤ → Text → Text
unfolding print_int print_time get_session_name
print_event c type now behind = print_field (codes "&Session=") (print_int c.status.session_id) (
    print_field (codes "&Source=chrono") [] (
      print_field (codes "&Name=") c.client_name (
        print_field (codes "&SessionName=") (get_session_name c.status.session_id c.client_name) (
          print_field (codes "&Type=") type
            (print_field (codes "&TimeStamp=") (print_time now) behind)))))

-- those of the dog, where the flag is set
unfoldable pub print_dog : Status → Text → Text
unfolding print_int
print_dog s behind = print_field (codes "&Prueba=") (print_int s.prueba) (
    print_field (codes "&Jornada=") (print_int s.jornada) (
      print_field (codes "&Manga=") (print_int s.manga) (
        print_field (codes "&Tanda=") (print_int s.tanda) (
          print_field (codes "&Numero=") (print_int s.numero) (
            print_field (codes "&Dorsal=") (print_int s.dorsal) (
              print_field (codes "&Perro=") (print_int s.perro) (
                print_field (codes "&Equipo=") (print_int s.equipo) (
                  print_field (codes "&Faltas=") (print_int s.faults) (
                    print_field (codes "&Tocados=") (print_int s.touchs) (
                      print_field (codes "&Rehuses=") (print_int s.refusals) (
                        print_field (codes "&Eliminado=") (print_int s.eliminated) (
                          print_field (codes "&Nopresentado=") (print_int s.notpresent)
                            (behind)))))))))))))

-- those of the command
unfoldable pub print_extra : Option Extra → Text
unfolding print_time
print_extra none = codes "&Value=0"
print_extra (some d) = print_field (codes "&Value=") d.value (
    print_field (codes "&Tiempo=") (print_time d.tiempo) (
      print_field (codes "&Oper=") d.oper (
        print_field (codes "&stop=") (print_time d.stop)
          (print_field (codes "&start=") (print_time d.start) []))))

unfoldable pub operation : Configuration → Text
operation c =
    codes "https://"
    ++ shown c.ajax_server
    ++ codes "/agility/ajax/database/eventFunctions.php?Operation=chronoEvent"

-- what is composed in the buffer
unfoldable pub address : Configuration → Text → Option Extra → Bool → ℤ → Text
unfolding operation print_event print_dog print_extra
address c type extra flag now =
    let behind = print_extra extra in
    operation c ++ print_event c type now (if flag then print_dog c.status behind else behind)

-- URL_BUFFSIZE
abbrev pub url_buffsize : ℕ
url_buffsize = 2018

-- libcurl and the clock: whether curl_easy_init gives a handle, what curl_easy_perform does with an address and
-- whether it succeeds, and the time
pub record Curl (N : Type 0) : Type 0 where
  pub curl_easy_init : N → Bool
  pub curl_easy_perform : Text → N → Bool × N
  pub time : N → ℤ

module _ {N : Type 0} (curl : Curl N) where
  unfoldable pub ajax_put_event : Configuration → Text → Option Extra → Bool → N → Run (ℤ × N)
  unfolding address
  ajax_put_event c type extra flag net =
      let url = address c type extra flag (curl.time net) in
      if ltb (length url) url_buffsize
      then if curl.curl_easy_init net
        then (let (ok, net') = curl.curl_easy_perform url net in
            if ok then done (pos 0, net') else done (negsuc 0, net'))
        else done (negsuc 0, net)
      else fault
