-- ===== src/Events/Batch.antt =====
-- src/ajax_json.c: the answers of the server to the other requests. The parser of JSON is a parameter: what
-- it finds in a document.
pub mod Rows
pub mod Answers
mod Tests
use agility_contest_serial_c.Base.{
  wrap32, ℕ, ◌^◌, Bool, Option, none, some, List, [], ◌∷◌, ◌++◌, ltb, if◌then◌else◌, ℤ, pos, negsuc,
  ◌+ℤ◌, unsigned, Text, codes, str_eq, strstr, atoi, print_int, take, drop, length, Run, done,
  fault, ◌>>=◌,
}
use agility_contest_serial_c.Config.{Configuration}
use agility_contest_serial_c.Events.{Properties, ReadJson, value, process_event_data}

-- What is read of a document: the value of "total", and the children of "rows" if that is an array, each an
-- object or not.
pub record Document : Type 0 where
  pub total : Option Text
  pub rows : Option (List (Option Properties))

-- json_create on a document
abbrev pub ReadDocument : Type 0
ReadDocument = Text → Option Document

abbrev pub permissions_prefix : Text
permissions_prefix = codes "{\"success\":true,\"perms\":"

-- parse_permissions where calloc succeeds; the number is read behind the length of the prefix
unfoldable pub parse_permissions : Text → ℤ
unfolding strstr atoi
parse_permissions s =
    if strstr s permissions_prefix then atoi (drop (length permissions_prefix) s) else negsuc 0

-- snprintf into 16 bytes
unfoldable pub ring_name : ℤ → Text
unfolding print_int
ring_name ring = take 15 (codes "Ring " ++ print_int ring)

unfoldable pub find_session : Text → List (Option Properties) → Run ℤ
unfolding value str_eq atoi
find_session ring [] = done (negsuc 0)
find_session ring (none ∷ rows) = find_session ring rows
find_session ring (some get ∷ rows) = do
  name ← value get (codes "Nombre")
  let rest = find_session ring rows
  if str_eq name ring then (do id ← value get (codes "ID"); done (atoi id)) else rest

unfoldable pub last_id : List (Option Properties) → ℤ → Run ℤ
unfolding value atoi
last_id [] id = done id
last_id (none ∷ rows) id = last_id rows id
last_id (some get ∷ rows) id = do v ← value get (codes "ID"); last_id rows (atoi v)

-- what is left of the events: the configuration, the id and the time stamp of the last, and the commands
pub record Batch : Type 0 where
  pub config : Configuration
  pub evtid : ℤ
  pub timestamp : ℤ
  pub commands : List Text

-- `result[evt_count]=...; if (result[evt_count]!=NULL) evt_count++`
abbrev pub add_command : Text → List Text → List Text
add_command [] commands = commands
add_command (c ∷ s) commands = commands ++ (c ∷ s) ∷ []

-- the entries of the array: a sum of `int` that wraps around, as a size_t
unfoldable pub entries_for : Text → ℕ
unfolding unsigned atoi ◌+ℤ◌ wrap32
entries_for total = unsigned (2 ^ 64) (wrap32 (pos 1 +ℤ atoi total))

module _ (read_document : ReadDocument) (read_json : ReadJson) where
  unfoldable pub parse_select : Configuration → Text → Run ℤ
  unfolding find_session ring_name
  parse_select c json = elim (read_document json) [
    | none ↦ done (negsuc 0)
    | some doc ↦ elim doc.rows [
      | none ↦ done (negsuc 0)
      | some rows ↦ find_session (ring_name c.ring) rows
    ]
  ]

  unfoldable pub parse_connect : Text → Run ℤ
  unfolding last_id str_eq
  parse_connect json = elim (read_document json) [
    | none ↦ done (negsuc 0)
    | some doc ↦ elim doc.total [
      | none ↦ done (negsuc 0)
      | some total ↦
          if str_eq (codes "0") total
          then done (pos 0)
          else elim doc.rows [ none ↦ done (negsuc 0) | some rows ↦ last_id rows (pos 0) ]
    ]
  ]

  -- one event: its command is stored in the array of `room` entries
  unfoldable pub parse_event : ℕ → Properties → Batch → Run Batch
  unfolding value atoi process_event_data
  parse_event room get b = do
    id ← value get (codes "ID")
    elim (get (codes "Data")) [
      | none ↦ done (record b { evtid = atoi id })
      | some text ↦ (do
        e ← process_event_data read_json b.config text b.timestamp
        if ltb (length b.commands) room
            then done (record {
              config = e.config;
              evtid = atoi id;
              timestamp = e.timestamp;
              commands = add_command e.message b.commands;
            })
            else fault)
    ]

  unfoldable pub parse_rows : ℕ → List (Option Properties) → Batch → Run Batch
  unfolding parse_event
  parse_rows room [] b = done b
  parse_rows room (none ∷ rows) b = parse_rows room rows b
  parse_rows room (some get ∷ rows) b = do b' ← parse_event room get b; parse_rows room rows b'

  -- parse_events; `calloc` says whether an array of so many entries can be had. The result is NULL, and what
  -- the caller handed over stays, or the array.
  unfoldable pub parse_events : (ℕ → Bool) → Configuration → Text → ℤ → ℤ → Run (Option Batch)
  unfolding parse_rows entries_for
  parse_events calloc c json evtid timestamp = elim (read_document json) [
    | none ↦ done none
    | some doc ↦ elim doc.total [
      | none ↦ done none
      | some total ↦ elim doc.rows [
        | none ↦ done none
        | some rows ↦
            if calloc (entries_for total)
            then (do
              b ←
                  parse_rows (entries_for total) rows
                    (record { config = c; evtid = evtid; timestamp = timestamp; commands = [] })
              done (some b))
            else done none
      ]
    ]
  ]
