-- ===== src/Events/Batch/Rows.antt =====
-- parse_events of src/ajax_json.c against the events of its rows, one after the other.
use agility_contest_serial_c.Base.{
  wrap32, ℕ, suc, ◌+◌, ◌^◌, ◌<◌, ◌≤◌, ◌≡◌, refl, ap, sym, ◌∙◌, Bool, true, Option, none, some, List,
  [], ◌∷◌, ◌++◌, append_assoc, append-nil, ltb, ℤ, pos, ◌+ℤ◌, unsigned, Text, codes, atoi, length,
  length-append, done, arith,
}
use agility_contest_serial_c.Config.{Configuration}
use agility_contest_serial_c.Events.{Properties, ReadJson, Event, process_event_data}
use agility_contest_serial_c.Events.Dog.{value-some}
use agility_contest_serial_c.Events.Batch.{
  ReadDocument, Batch, add_command, parse_event, parse_rows, entries_for, parse_events,
}

-- every row is an object with an id and data
abbrev pub RowsOf : List (Option Properties) → List (Text × Text) → Type 0
RowsOf [] [] = Unit
RowsOf (some get ∷ rows) ((id, text) ∷ events) =
    (get (codes "ID") ≡ some id) × (get (codes "Data") ≡ some text) × RowsOf rows events
RowsOf _ _ = ⊥

-- the id of the last event, the one in front if there is none
abbrev pub id_after : ℤ → List (Text × Text) → ℤ
unfolding atoi
id_after id [] = id
id_after id ((i, text) ∷ events) = id_after (atoi i) events

-- the configuration and the time stamp behind the events
abbrev pub config_after : Configuration → List Event → Configuration
config_after c [] = c
config_after c (e ∷ es) = config_after e.config es

abbrev pub stamp_after : ℤ → List Event → ℤ
stamp_after t [] = t
stamp_after t (e ∷ es) = stamp_after e.timestamp es

-- the commands of the events that have one
abbrev pub commands_of : List Event → List Text
commands_of [] = []
commands_of (e ∷ es) = add_command e.message [] ++ commands_of es

add_command-append : (s : Text) (cs : List Text) → add_command s cs ≡ cs ++ add_command s []
add_command-append [] cs = sym (append-nil cs)
add_command-append (c ∷ s) cs = refl

length-add_command : (s : Text) → length (add_command s []) ≤ 1
length-add_command [] = omega arith
length-add_command (c ∷ s) = omega arith

length-commands_of : (es : List Event) → length (commands_of es) ≤ length es
length-commands_of [] = omega arith
length-commands_of (e ∷ es) = omega (
  arith,
  length-commands_of es,
  length-add_command e.message,
  length-append (add_command e.message []) (commands_of es),
)

-- the events one after the other, each on the configuration and the time stamp that the one before leaves
pub data Processed (read_json : ReadJson)
    : List (Text × Text) → Configuration → ℤ → List Event → Type 0 where
  nil : {c : Configuration} {t : ℤ} → Processed read_json [] c t []
  cons :
      {id text : Text} {evs : List (Text × Text)} {c : Configuration} {t : ℤ} {e : Event}
      {es : List Event}
      → process_event_data read_json c text t ≡ done e
      → Processed read_json evs e.config e.timestamp es
      → Processed read_json ((id, text) ∷ evs) c t (e ∷ es)

length-Processed :
    {read_json : ReadJson} {evs : List (Text × Text)} {c : Configuration} {t : ℤ} {es : List Event}
    → Processed read_json evs c t es
    → length es ≡ length evs
length-Processed nil = refl
length-Processed (cons first rest) = ap suc (length-Processed rest)

entries_for_pos :
    (total : Text) (k : ℕ) → atoi total ≡ pos k → suc k < 2 ^ 31 → entries_for total ≡ suc k
unfolding entries_for unsigned ◌+ℤ◌ wrap32
entries_for_pos total k number small = rw number (ground (arith, small))

module _ (read_document : ReadDocument) (read_json : ReadJson) where
  abbrev behind : Batch → List (Text × Text) → List Event → Batch
  behind b evs es = record {
    config = config_after b.config es;
    evtid = id_after b.evtid evs;
    timestamp = stamp_after b.timestamp es;
    commands = b.commands ++ commands_of es;
  }

  parse_event-done :
      (room : ℕ) (get : Properties) (b : Batch) (id text : Text) {e : Event}
      → get (codes "ID") ≡ some id
      → get (codes "Data") ≡ some text
      → length b.commands < room
      → process_event_data read_json b.config text b.timestamp ≡ done e
      → parse_event read_document read_json room get b
        ≡ done (record {
          config = e.config;
          evtid = atoi id;
          timestamp = e.timestamp;
          commands = add_command e.message b.commands;
        })
  unfolding parse_event
  parse_event-done room get b id text has_id has_data few runs =
      let fits : ltb (length b.commands) room ≡ true = ground (arith, few) in
      rw (value-some get (codes "ID") id has_id) (rw has_data (rw runs (rw fits refl)))

  parse_rows-behind :
      (room : ℕ) (rows : List (Option Properties)) (evs : List (Text × Text)) (b : Batch)
      {es : List Event}
      → RowsOf rows evs
      → length b.commands + length evs < room
      → Processed read_json evs b.config b.timestamp es
      → parse_rows read_document read_json room rows b ≡ done (behind b evs es)
  unfolding parse_rows
  parse_rows-behind room [] [] b h few nil = rw (append-nil b.commands) refl
  parse_rows-behind room [] (e ∷ evs) b h few runs = absurd h
  parse_rows-behind room (none ∷ rows) [] b h few runs = absurd h
  parse_rows-behind room (none ∷ rows) (e ∷ evs) b h few runs = absurd h
  parse_rows-behind room (some get ∷ rows) [] b h few runs = absurd h
  parse_rows-behind room (some get ∷ rows) ((id, text) ∷ evs) b (has_id, has_data, more) few
        (cons {e = e} {es = es} first rest) =
      let commands = add_command e.message b.commands in
      let b' : Batch = record {
        config = e.config;
        evtid = atoi id;
        timestamp = e.timestamp;
        commands = commands;
      } in
      let added = add_command-append e.message b.commands in
      let size : length commands ≡ length b.commands + length (add_command e.message []) =
        ap length added ∙ length-append b.commands (add_command e.message []) in
      let next =
        parse_rows-behind room rows evs b' more
          (omega (arith, few, size, length-add_command e.message)) rest in
      rw (parse_event-done room get b id text has_id has_data (omega (arith, few)) first) (
        next ∙ rw (added, append_assoc b.commands (add_command e.message []) (commands_of es)) refl)

  -- When every row is an object with an id and data, the total is a number below 2147483647 that is at least
  -- the number of the rows, an array for that many commands can be had, and every event can be processed after
  -- those in front of it, then parse_events processes them so: it leaves the configuration and the time
  -- stamp of the last event, its id, and the commands of all events in order, with room for a NULL behind
  -- them.
  pub parse_events-Processed :
      (calloc : ℕ → Bool) (c : Configuration) (json total : Text) (evtid t : ℤ) (k : ℕ)
      (rows : List (Option Properties)) (evs : List (Text × Text)) {es : List Event}
      → read_document json ≡ some (record { total = some total; rows = some rows })
      → RowsOf rows evs
      → atoi total ≡ pos k
      → suc k < 2 ^ 31
      → length evs ≤ k
      → calloc (suc k) ≡ true
      → Processed read_json evs c t es
      → (parse_events read_document read_json calloc c json evtid t
          ≡ done (
              some (record {
                config = config_after c es;
                evtid = id_after evtid evs;
                timestamp = stamp_after t es;
                commands = commands_of es;
              })))
        × (length (commands_of es) < suc k)
  unfolding parse_events
  parse_events-Processed calloc c json total evtid t k rows evs {es = es} parsed all number small
        enough space runs =
      let room = entries_for_pos total k number small in
      let b : Batch = record { config = c; evtid = evtid; timestamp = t; commands = [] } in
      let count = length-Processed runs in
      let some_es = length-commands_of es in
      (
        rw (parsed, parse_events)
            (rw (room, space)
              (rw (parse_rows-behind (suc k) rows evs b all (omega (arith, enough)) runs) refl)),
        omega (arith, some_es, count, enough),
      )
