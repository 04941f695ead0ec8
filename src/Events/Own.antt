-- ===== src/Events/Own.antt =====
-- src/ajax_json.c: which events do nothing.
use agility_contest_serial_c.Base.{
  ◌≡◌, refl, true, some, [], ℤ, Text, codes, str_eq_refl, strtol, done,
}
use agility_contest_serial_c.Config.{Configuration}
use agility_contest_serial_c.Tools.{get_session_name}
use agility_contest_serial_c.Events.{Properties, ReadJson, is_own, process_event_data}

is_own-own :
    (c : Configuration) (get : Properties)
    → get (codes "SessionName") ≡ some (get_session_name c.status.session_id c.client_name)
    → is_own c get ≡ true
unfolding is_own
is_own-own c get own =
    rw (own, is_own) (str_eq_refl (get_session_name c.status.session_id c.client_name))

-- An event that this program has sent itself becomes no command and leaves the configuration as it is,
-- whatever its type and its other values; only its time stamp is taken.
pub process_event_data-own :
    (read_json : ReadJson) (c : Configuration) (datastr stamp : Text) (timestamp : ℤ)
    (get : Properties)
    → read_json datastr ≡ some get
    → get (codes "SessionName") ≡ some (get_session_name c.status.session_id c.client_name)
    → get (codes "TimeStamp") ≡ some stamp
    → process_event_data read_json c datastr timestamp
      ≡ done (record { timestamp = strtol stamp; config = c; message = [] })
unfolding process_event_data
process_event_data-own read_json c datastr stamp timestamp get parsed own stamped =
    rw (parsed, process_event_data) (rw (is_own-own c get own, stamped) refl)
