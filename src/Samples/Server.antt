-- ===== src/Samples/Server.antt =====
-- An answer of the server, with one event.
use agility_contest_serial_c.Base.{
  ◌≡◌, refl, List, [], ◌∷◌, Option, none, some, if◌then◌else◌, pos, Text, codes, str_eq, strtol,
  strtol, atoi, skip_space, signed_digits, digits_from, wrap32, isdigit, isspace, done,
}
use agility_contest_serial_c.Events.{
  Properties, ReadJson, Event, process_event_data, event_type, is_own, value,
}
use agility_contest_serial_c.Events.Batch.{ReadDocument}
use agility_contest_serial_c.Events.Batch.Rows.{RowsOf}
use agility_contest_serial_c.Samples.{config_0}

-- an object with the properties of a list
abbrev pub object : List (Text × Text) → Properties
unfolding str_eq
object [] key = none
object ((k, v) ∷ ps) key = if str_eq k key then some v else object ps key

-- a reset that another program has sent
abbrev pub reset_event : Properties
reset_event = object ((codes "Type", codes "crono_reset") ∷ (codes "TimeStamp", codes "9") ∷ [])

abbrev pub row : Properties
row = object ((codes "ID", codes "31") ∷ (codes "Data", codes "{}") ∷ [])

abbrev pub rows_0 : List (Option Properties)
rows_0 = some row ∷ []

abbrev pub read_json : ReadJson
read_json s = some reset_event

abbrev pub read_rows : ReadDocument
read_rows s = some (record { total = some (codes "1"); rows = some rows_0 })

abbrev pub event_0 : Event
event_0 = record { timestamp = pos 9; config = config_0; message = codes "reset\n" }

pub processes : process_event_data read_json config_0 (codes "{}") (pos 3) ≡ done event_0
unfolding process_event_data is_own value event_type str_eq strtol skip_space signed_digits
    digits_from isdigit isspace
processes = refl

pub rows-RowsOf : RowsOf rows_0 ((codes "31", codes "{}") ∷ [])
unfolding str_eq
rows-RowsOf = (refl, refl, tt)

pub one : atoi (codes "1") ≡ pos 1
unfolding atoi strtol skip_space signed_digits digits_from isdigit isspace wrap32
one = refl
