-- ===== src/Ajax/Tests.antt =====
-- The events of concrete commands.
use agility_contest_serial_c.Base.{
  false, ℤ, ◌+ℤ◌, ◌≡◌, ◌≢◌, ◌<◌, refl, true, some, List, [], ◌∷◌, pos, wrap64, unsigned, Text,
  codes, print_int, print_nat, print_from, tolower, map, length, done, arith,
}
use agility_contest_serial_c.Config.{Configuration, Status, default_options}
use agility_contest_serial_c.Tools.{explode, explode_from, get_session_name}
use agility_contest_serial_c.Tokens.{Tokens}
use agility_contest_serial_c.Dispatch.{World, ManagerHandler, c_string}
use agility_contest_serial_c.Events.{shown, ReadJson}
use agility_contest_serial_c.Ajax.{
  Extra, Curl, address, print_event, print_dog, print_extra, operation, print_time, value_only,
  url_buffsize,
}
use agility_contest_serial_c.Ajax.Handlers.{ajax_entries}
use agility_contest_serial_c.Ajax.Bytes.{every, plain_char}
use agility_contest_serial_c.Ajax.Query.{Field}
use agility_contest_serial_c.Ajax.Fields.{fields}
use agility_contest_serial_c.Ajax.Relayed.{lookup, sent_time, Relayed, starts, ajax_entries-Relayed}
use agility_contest_serial_c.Samples.{config_0, main_0, tokens_of}

-- a server that takes every event
abbrev curl : Curl (List Text)
curl = record {
  curl_easy_init = λ urls. true;
  curl_easy_perform = λ url urls. (true, url ∷ urls);
  time = λ urls. pos 1700;
}

abbrev world : World (List Text)
world = record { main = main_0; app = [] }

-- a message of three words, as MSG puts it
abbrev message : Extra
message = record {
  oper = codes "8";
  value = codes "5:go%20now";
  start = pos 0;
  stop = pos 0;
  tiempo = pos 0;
}

plain_server : every plain_char (shown config_0.ajax_server) ≡ true
unfolding config_0 default_options
plain_server = refl

plain_name : every plain_char config_0.client_name ≡ true
unfolding config_0 default_options
plain_name = refl

abbrev told : List Field
told =
    (codes "Operation", codes "chronoEvent")
    ∷ (codes "Session", codes "0")
    ∷ (codes "Source", codes "chrono")
    ∷ (codes "Name", codes "generic")
    ∷ (codes "SessionName", codes "chrono:0:0:0:generic")
    ∷ (codes "Type", codes "command")
    ∷ (codes "TimeStamp", codes "1700")
    ∷ (codes "Prueba", codes "0")
    ∷ (codes "Jornada", codes "0")
    ∷ (codes "Manga", codes "0")
    ∷ (codes "Tanda", codes "0")
    ∷ (codes "Numero", codes "0")
    ∷ (codes "Dorsal", codes "0")
    ∷ (codes "Perro", codes "0")
    ∷ (codes "Equipo", codes "0")
    ∷ (codes "Faltas", codes "0")
    ∷ (codes "Tocados", codes "0")
    ∷ (codes "Rehuses", codes "0")
    ∷ (codes "Eliminado", codes "0")
    ∷ (codes "Nopresentado", codes "0")
    ∷ (codes "Value", codes "5:go now")
    ∷ (codes "Tiempo", codes "0")
    ∷ (codes "Oper", codes "8")
    ∷ (codes "stop", codes "0")
    ∷ (codes "start", codes "0")
    ∷ []

abbrev start_tokens : Tokens
start_tokens = tokens_of (codes "comm_server") (codes "start") (codes "0" ∷ [])

foreign : start_tokens.source ≢ codes "ac_server"
foreign e = cc e

abbrev start_time_of : Status → ℤ
start_time_of s = s.start_time

-- a parser that finds the parameters of the event
abbrev read_event : ReadJson
read_event json = some (
    lookup (
      fields config_0 (codes "crono_start")
        (some (value_only (sent_time start_time_of config_0.status))) false (pos 1700)))

-- a program with another session
abbrev receiver : Configuration
receiver = record config_0 { status = record config_0.status { session_id = pos 4 } }

start_fits :
    length (
      address config_0
        (codes "crono_start")
        (some (value_only (sent_time start_time_of config_0.status)))
        false
        (pos 1700))
    < url_buffsize
unfolding address operation print_event print_dog print_extra print_time print_int print_nat
    print_from get_session_name unsigned config_0 default_options wrap64 ◌+ℤ◌
start_fits = omega arith

ajax_entries-Relayed_example :
    (h : ManagerHandler (List Text)) × (ajax_entries curl 0 ≡ some h)
    × Relayed curl world start_tokens 3 foreign plain_server plain_name refl
        (λ url. refl)
        1700
        refl
        (omega arith)
        read_event
        (codes "{}")
        receiver
        (pos 3)
        h
        (codes "crono_start")
        (codes "0")
        (codes "start 0\n")
unfolding wrap64 ◌+ℤ◌ print_time print_nat print_from unsigned config_0 default_options
ajax_entries-Relayed_example =
    ajax_entries-Relayed curl world start_tokens 3 foreign plain_server plain_name refl
      (λ url. refl) 1700 refl (omega arith) read_event (codes "{}") receiver (pos 3) starts
      start_fits refl

turn_tokens :
    explode (c_string (codes "user_server Turn")) b' '
    ≡ done (codes "user_server" ∷ codes "Turn" ∷ [])
unfolding explode explode_from c_string
turn_tokens = refl

turn_name : map tolower (codes "Turn") ≡ codes "turn"
unfolding tolower
turn_name = refl
