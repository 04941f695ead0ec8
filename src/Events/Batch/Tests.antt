-- ===== src/Events/Batch/Tests.antt =====
-- The answers of the server at concrete documents.
use agility_contest_serial_c.Base.{
  ◌≡◌, ◌<◌, refl, [], ◌∷◌, ◌++◌, none, some, true, false, pos, Text, codes, str_eq, atoi, isdigit,
  print_int, print_nat, print_from, done, arith,
}
use agility_contest_serial_c.Config.{default_options}
use agility_contest_serial_c.Events.{Properties}
use agility_contest_serial_c.Events.Batch.{ReadDocument, ring_name, parse_select, parse_events}
use agility_contest_serial_c.Events.Batch.Rows.{nil, cons, id_after, parse_events-Processed}
use agility_contest_serial_c.Events.Batch.Answers.{parse_select-first}
use agility_contest_serial_c.Samples.{config_0}
use agility_contest_serial_c.Samples.Server.{
  object, rows_0, read_json, read_rows, processes, rows-RowsOf, one,
}

brace : isdigit b'}' ≡ false
unfolding isdigit
brace = refl

parse_events-Processed_example :
    (parse_events read_rows read_json (λ n. true) config_0 [] (pos 0) (pos 3)
      ≡ done (
          some (record {
            config = config_0;
            evtid = id_after (pos 0) ((codes "31", codes "{}") ∷ []);
            timestamp = pos 9;
            commands = codes "reset\n" ∷ [];
          })))
    × (1 < 2)
parse_events-Processed_example =
    parse_events-Processed read_rows read_json (λ n. true) config_0 [] (codes "1") (pos 0) (pos 3) 1
      rows_0 ((codes "31", codes "{}") ∷ []) refl rows-RowsOf one (omega arith) (omega arith) refl
      (cons processes nil)

-- the rows of two rings
abbrev ring_row : Text → Text → Properties
ring_row name id = object ((codes "Nombre", name) ∷ (codes "ID", id) ∷ [])

abbrev read_rings : ReadDocument
read_rings s = some (record {
  total = none;
  rows =
      some (
        (some (ring_row [] (codes "8")) ∷ []) ++ some (ring_row (codes "Ring 1") (codes "7")) ∷ []);
})

parse_select-first_example : parse_select read_rings read_json config_0 [] ≡ done (atoi (codes "7"))
unfolding str_eq ring_name print_int print_nat print_from config_0 default_options
parse_select-first_example =
    parse_select-first read_rings read_json config_0 [] (codes "7") none
      (some (ring_row [] (codes "8")) ∷ []) [] (ring_row (codes "Ring 1") (codes "7")) refl
      (([], refl, (λ e. cc e)), tt) refl refl
