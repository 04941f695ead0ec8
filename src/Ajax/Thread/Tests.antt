-- ===== src/Ajax/Thread/Tests.antt =====
-- The thread of the server at concrete answers.
use agility_contest_serial_c.Base.{
  List, Text, ◌++◌, none, if◌then◌else◌, str_eq, strstr, atoi, strtol, skip_space, signed_digits,
  digits_from, isdigit, isspace, wrap32, print_int, ℕ, ◌≡◌, refl, [], ◌∷◌, some, true, pos, codes,
  strchr, done, arith,
}
use agility_contest_serial_c.Events.Batch.Rows.{nil, cons, id_after}
use agility_contest_serial_c.Ajax.Thread.{
  Perform, Answers, accepted, refused, warned, Link, request_of, refusal_text, link_round, connect,
  ajax_connect_server, ajax_get_permissions, ajax_open_session, license_of,
}
use agility_contest_serial_c.Ajax.Thread.Start.{
  OpensAfter, ajax_manager_thread, ajax_manager_thread-refused,
}
use agility_contest_serial_c.Config.{Configuration}
use agility_contest_serial_c.Events.{Properties, value}
use agility_contest_serial_c.Events.Batch.{
  ReadDocument, permissions_prefix, parse_select, parse_permissions, parse_connect, find_session,
  ring_name, last_id,
}
use agility_contest_serial_c.Ajax.Thread.Refused.{IsAnswered}
use agility_contest_serial_c.Ajax.Thread.Sends.{link_round-Processed}
use agility_contest_serial_c.Samples.{config_0}
use agility_contest_serial_c.Samples.Server.{
  object, rows_0, read_json, read_rows, processes, rows-RowsOf, one,
}

-- the network counts the requests
abbrev perform : Perform ℕ
perform url count = (some [], 1)

abbrev answers : Answers
answers request = some (some 2)

answers-IsAnswered : IsAnswered answers
answers-IsAnswered t = (2, refl, omega arith)

abbrev link : Link ℕ
link = record { config = config_0; evtid = pos 30; timestamp = pos 3; license = accepted; net = 0 }

link_round-Processed_example :
    link_round perform read_rows read_json (λ n. true) answers link
    ≡ done (
      codes "ac_server reset" ∷ [],
      record {
        config = config_0;
        evtid = id_after (pos 30) ((codes "31", codes "{}") ∷ []);
        timestamp = pos 9;
        license = accepted;
        net = 1;
      },
    )
unfolding strchr
link_round-Processed_example =
    link_round-Processed perform read_rows read_json (λ n. true) answers link [] (codes "1") 1 1
      rows_0 ((codes "31", codes "{}") ∷ []) refl refl rows-RowsOf one (omega arith) (omega arith)
      refl (cons processes nil) answers-IsAnswered

-- the answers of the server, one for each request
abbrev script : Perform (List Text)
script url [] = (none, [])
script url (body ∷ later) = (some body, later)

abbrev ring_row : Properties
ring_row = object ((codes "Nombre", codes "Ring 1") ∷ (codes "ID", codes "7") ∷ [])

-- the ring, no event, and one event
abbrev read_script : ReadDocument
unfolding str_eq
read_script s =
    if str_eq s (codes "rings")
    then some (record { total = none; rows = some (some ring_row ∷ []) })
    else if str_eq s (codes "empty")
    then some (record { total = some (codes "0"); rows = none })
    else some (record { total = some (codes "1"); rows = some rows_0 })

abbrev without_chrono : Text
without_chrono = permissions_prefix ++ codes "1"

abbrev in_session : Configuration
in_session = record config_0 { status = record config_0.status { session_id = pos 7 } }

connects :
    connect script read_script read_json config_0
      (codes "rings" ∷ without_chrono ∷ codes "empty" ∷ codes "one" ∷ [])
    ≡ done (some (in_session, refused, codes "empty" ∷ codes "one" ∷ []))
unfolding connect ajax_connect_server ajax_get_permissions parse_select parse_permissions
    find_session ring_name value str_eq strstr atoi strtol skip_space signed_digits digits_from
    isdigit isspace wrap32 license_of print_int config_0
connects = refl

opens_once :
    OpensAfter script read_script read_json 1 in_session (codes "empty" ∷ codes "one" ∷ []) 31 []
unfolding ajax_open_session parse_connect last_id str_eq value atoi strtol skip_space signed_digits
    digits_from isdigit isspace wrap32
opens_once = (codes "one" ∷ [], refl, (omega arith, refl))

ajax_manager_thread-refused_example :
    ajax_manager_thread script read_script read_json
      (λ n. true)
      (λ name port. true)
      true
      3
      (answers ∷ answers ∷ [])
      config_0
      (codes "rings" ∷ without_chrono ∷ codes "empty" ∷ codes "one" ∷ [])
    ≡ done (
        some (
          request_of refusal_text ∷ request_of (codes "EXIT") ∷ [],
          record {
            config = in_session;
            evtid = pos 31;
            timestamp = pos 0;
            license = warned;
            net = [];
          },
        ))
ajax_manager_thread-refused_example =
    ajax_manager_thread-refused script read_script read_json (λ n. true) (λ name port. true) true 1
      3 answers (answers ∷ []) config_0 in_session
      (codes "rings" ∷ without_chrono ∷ codes "empty" ∷ codes "one" ∷ [])
      (codes "empty" ∷ codes "one" ∷ []) [] 31 refl refl connects (omega arith) opens_once
      (answers-IsAnswered, (answers-IsAnswered, tt))
