-- ===== src/Ajax/Thread.antt =====
-- src/ajax_mgr.c, the thread: it connects to the server (the requests of src/ajax_curl.c), waits for events and
-- sends their commands to the main loop. What the server answers and whether sockets work are parameters.
pub mod Refused
pub mod Sends
pub mod Start
mod Tests
use Prim.Native.Nat.{bit_and}
use agility_contest_serial_c.Base.{
  ℕ, ◌-◌, ◌^◌, Bool, Option, none, some, List, [], ◌∷◌, ◌++◌, ◌==◌, leb, if◌then◌else◌, ℤ, pos,
  negsuc, ltb_ℤ, Text, codes, strchr, print_int, take, length, unsigned, Run, done, fault, ◌>>=◌,
}
use agility_contest_serial_c.Config.{Configuration}
use agility_contest_serial_c.Tools.{get_session_name}
use agility_contest_serial_c.Events.{ReadJson, shown}
use agility_contest_serial_c.Events.Batch.{
  ReadDocument, Batch, parse_permissions, parse_select, parse_connect, parse_events,
}
use agility_contest_serial_c.Ajax.{sc_ajax, url_buffsize, print_time}

-- what curl_easy_perform brings for an address: the answer, or an error
abbrev pub Perform : Type 0 → Type 0
Perform N = Text → N → Option Text × N

abbrev base_of : Configuration → Text
base_of c = codes "https://" ++ shown c.ajax_server ++ codes "/agility/ajax/"

-- snprintf into URL_BUFFSIZE bytes
abbrev into_url : Text → Text
into_url = take (url_buffsize - 1)

unfoldable pub events_url : Configuration → ℤ → ℤ → Text
unfolding print_int print_time get_session_name
events_url c evtid stamp = into_url (
    base_of c
    ++ codes "database/eventFunctions.php?Operation=getEvents&Session="
    ++ print_int c.status.session_id
    ++ codes "&ID="
    ++ print_int evtid
    ++ codes "&TimeStamp="
    ++ print_time stamp
    ++ codes "&Source=chrono&Name="
    ++ c.client_name
    ++ codes "&SessionName="
    ++ get_session_name c.status.session_id c.client_name)

-- license_options: from 0 on, -1 and -2
pub data License : Type 0 where
  accepted : License
  refused : License
  warned : License

module _ {N : Type 0} (perform : Perform N) (read_document : ReadDocument)
    (read_json : ReadJson) where
  unfoldable pub ajax_get_permissions : Configuration → N → ℤ × N
  unfolding parse_permissions
  ajax_get_permissions c net =
      let url = into_url (base_of c ++ codes "adminFunctions.php?Operation=capabilities") in
      let (answer, net') = perform url net in
      elim answer [ none ↦ (negsuc 0, net') | some body ↦ (parse_permissions body, net') ]

  -- without a session the ring is printed as if it were a text
  unfoldable pub ajax_connect_server : Configuration → N → Run (ℤ × N)
  unfolding parse_select
  ajax_connect_server c net =
      let url =
        into_url (base_of c ++ codes "database/sessionFunctions.php?Operation=selectring") in
      let (answer, net') = perform url net in
      elim answer [
        | none ↦ done (negsuc 0, net')
        | some body ↦ (do
          ses ← parse_select read_document read_json c body
          if ltb_ℤ ses (pos 0) then fault else done (ses, net'))
      ]

  unfoldable pub ajax_open_session : Configuration → N → Run (ℤ × N)
  unfolding parse_connect print_int get_session_name
  ajax_open_session c net =
      let url = into_url (
        base_of c
        ++ codes "database/eventFunctions.php?Operation=connect&Session="
        ++ print_int c.status.session_id
        ++ codes "&SessionName="
        ++ get_session_name c.status.session_id c.client_name) in
      let (answer, net') = perform url net in
      elim answer [
        | none ↦ done (negsuc 0, net')
        | some body ↦ (do id ← parse_connect read_document read_json body; done (id, net'))
      ]

  -- behind the request
  unfoldable pub answer_events :
      (ℕ → Bool) → Configuration → ℤ → ℤ → Option Text × N → Run (Option Batch × N)
  unfolding parse_events
  answer_events calloc c evtid stamp (none, net) = done (none, net)
  answer_events calloc c evtid stamp (some body, net) = do
    b ← parse_events read_document read_json calloc c body evtid stamp
    done (b, net)

  unfoldable pub ajax_wait_for_events :
      (ℕ → Bool) → Configuration → ℤ → ℤ → N → Run (Option Batch × N)
  unfolding events_url answer_events
  ajax_wait_for_events calloc c evtid stamp net =
      answer_events calloc c evtid stamp (perform (events_url c evtid stamp) net)

  abbrev with_session : Configuration → ℤ → Configuration
  with_session c ses = record c { status = record c.status { session_id = ses } }

  -- `permissions & 0x40` on an `int`
  unfoldable pub license_of : ℤ → License
  unfolding unsigned
  license_of p = if bit_and (unsigned (2 ^ 32) p) 64 == 0 then refused else accepted

  -- The session and the permissions; none when the thread ends without a session.
  unfoldable pub connect : Configuration → N → Run (Option (Configuration × License × N))
  unfolding ajax_connect_server ajax_get_permissions license_of
  connect c net = do
    (ses, net') ← ajax_connect_server c net
    if ltb_ℤ ses (pos 0)
        then done none
        else (let c' = with_session c ses in
            let (p, net'') = ajax_get_permissions c' net' in done (some (c', license_of p, net'')))

-- What the loop carries along: the configuration, the last event, the license and the network.
pub record Link (N : Type 0) : Type 0 where
  pub config : Configuration
  pub evtid : ℤ
  pub timestamp : ℤ
  pub license : License
  pub net : N

-- What send and recv return for a request in this round: whether it is sent, and how many bytes are received
abbrev pub Answers : Type 0
Answers = Text → Option (Option ℕ)

-- the request of a command: 1024 bytes, up to the first newline
abbrev pub request_of : Text → Text
request_of cmd =
    let text = take 1023 (sc_ajax ++ codes " " ++ cmd) in
    elim (strchr text b'\n') [ none ↦ text | some (line, behind) ↦ line ]

abbrev pub refusal_text : Text
refusal_text = codes "MSG 10 Chrono is not supported in server license"

-- the datagrams that the commands become
unfoldable pub send_commands : Answers → List Text → Run (List Text)
unfolding strchr
send_commands answers [] = done []
send_commands answers (cmd ∷ cmds) = do
  rest ← send_commands answers cmds
  if leb (length cmd) 0 then done rest else elim (answers (request_of cmd)) [
    | none ↦ done rest
    | some none ↦ done (request_of cmd ∷ rest)
    | some (some n) ↦ if leb 1024 n then fault else done (request_of cmd ∷ rest)
  ]

module _ {N : Type 0} (perform : Perform N) (read_document : ReadDocument) (read_json : ReadJson)
    (calloc : ℕ → Bool) where
  -- behind ajax_wait_for_events
  abbrev received : Answers → Link N → Option Batch × N → Run (List Text × Link N)
  received answers l (none, net) = done ([], record l { net = net })
  received answers l (some b, net) = do
    sent ← send_commands answers b.commands
    done (sent, record l { config = b.config; evtid = b.evtid; timestamp = b.timestamp; net = net })

  -- one round of the loop: the datagrams that it sends
  unfoldable pub link_round : Answers → Link N → Run (List Text × Link N)
  unfolding ajax_wait_for_events send_commands
  link_round answers l = elim l.license [
    | refused ↦ (do
      sent ← send_commands answers (refusal_text ∷ [])
      done (sent, record l { license = warned }))
    | warned ↦ (do sent ← send_commands answers (codes "EXIT" ∷ []); done (sent, l))
    | accepted ↦ (do
      r ←
          ajax_wait_for_events perform read_document read_json calloc l.config l.evtid l.timestamp
            l.net
      received answers l r)
  ]

  -- the rounds up to the one in front of which the index of the slot is negative
  unfoldable pub link_loop : List Answers → Link N → Run (List Text × Link N)
  unfolding link_round
  link_loop [] l = done ([], l)
  link_loop (answers ∷ rounds) l = do
    (sent, l') ← link_round answers l
    (later, l'') ← link_loop rounds l'
    done (sent ++ later, l'')
