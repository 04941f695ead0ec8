-- ===== src/Ajax/Relayed.antt =====
-- What an event that src/ajax_mgr.c puts becomes at another program that receives it (src/ajax_json.c), when
-- the server hands on its parameters.
use agility_contest_serial_c.Base.{
  ℕ, ◌<◌, ◌≡◌, ◌≢◌, refl, ◌∙◌, true, false, none, some, Bool-cases, inl, inr, sym, ap, ◌⊎◌, strtol,
  ◌^◌, ◌%◌, unsigned, append-nil, strtol-print_nat, print_nat, List, [], ◌∷◌, ◌++◌, if◌then◌else◌,
  ℤ, pos, ◌+ℤ◌, wrap64, Text, codes, str_eq, str_eq_iff, length, done, arith,
}
use agility_contest_serial_c.Config.{Configuration, Status}
use agility_contest_serial_c.Tools.{get_session_name}
use agility_contest_serial_c.Tokens.{Tokens}
use agility_contest_serial_c.Dispatch.{World, ManagerHandler}
use agility_contest_serial_c.Digican.{bounded}
use agility_contest_serial_c.Events.{
  shown, msg_len, Properties, ReadJson, event_type, event_int, value, is_own, process_event_data,
}
use agility_contest_serial_c.Ajax.{value_only, address, url_buffsize, Curl, sc_ajax, print_time}
use agility_contest_serial_c.Ajax.Handlers.{
  put, time_text, ajax_mgr_start, ajax_mgr_int, ajax_mgr_stop, ajax_mgr_ok, ajax_entries,
}
use agility_contest_serial_c.Ajax.Bytes.{
  every, plain_char, plain-value, value_char, every_mono, print_time-plain,
}
use agility_contest_serial_c.Ajax.Query.{Field, query, percent_decode, percent_decode-plain}
use agility_contest_serial_c.Ajax.Fields.{fields, IsPlain}
use agility_contest_serial_c.Ajax.Address.{ajax_put_event-query}

-- the first value of a name
abbrev pub lookup : List Field → Properties
unfolding str_eq
lookup [] key = none
lookup ((name, v) ∷ fs) key = if str_eq name key then some v else lookup fs key

-- the commands with a time: their index, the time, the type of their event, and the command that it becomes
pub data Timed : ℕ → (Status → ℤ) → Text → Text → Type 0 where
  starts : Timed 0 (λ s. s.start_time) (codes "crono_start") (codes "start ")
  ints : Timed 1 (λ s. s.int_time) (codes "crono_int") (codes "int ")
  stops : Timed 2 (λ s. s.stop_time) (codes "crono_stop") (codes "stop ")

-- what a receiver makes of the type and the value of an event
abbrev Becomes : Text → Text → Text → Type 0
Becomes type v message =
    (c c' : Configuration) (now : ℤ)
    → event_type type c' (lookup (fields c type (some (value_only v)) false now))
      ≡ done (c', bounded msg_len message)

event_type-Timed :
    {i : ℕ} {time : Status → ℤ} {type cmd : Text}
    → Timed i time type cmd
    → (v : Text) → Becomes type v (cmd ++ percent_decode v ++ codes "\n")
unfolding event_type event_int value lookup str_eq
event_type-Timed starts v c c' now = refl
event_type-Timed ints v c c' now = refl
event_type-Timed stops v c c' now = refl

error_event : (v : Text) → Becomes (codes "crono_error") v (codes "fail\n")
unfolding event_type str_eq
error_event v c c' now = refl

-- the name of the session of a program, with which it marks its events
abbrev pub session_of : Configuration → Text
session_of c = get_session_name c.status.session_id c.client_name

strtol-print_time : (n : ℕ) → n < 2 ^ 63 → strtol (print_time (pos n)) ≡ pos n
unfolding print_time unsigned
strtol-print_time n small =
    let same : n % (2 ^ 64) ≡ n = ground (arith, small) in
    rw same (ap strtol (sym (append-nil (print_nat n))) ∙ strtol-print_nat n [] small tt)

module _ (read_json : ReadJson) (json : Text) (c c' : Configuration) (now : ℕ) (stamp : ℤ) where
  -- A program with the same session name leaves the event alone, any other makes a command of it.
  abbrev pub Received : Text → Type 0
  Received message =
      ((session_of c ≡ session_of c')
        × (process_event_data read_json c' json stamp
            ≡ done (record { timestamp = pos now; config = c'; message = [] })))
      ⊎ ((session_of c ≢ session_of c')
          × (process_event_data read_json c' json stamp
              ≡ done
                  (record { timestamp = pos now; config = c'; message = bounded msg_len message })))

  process_event_data-Received :
      (type v message : Text)
      → read_json json ≡ some (lookup (fields c type (some (value_only v)) false (pos now)))
      → now < 2 ^ 63
      → Becomes type v message
      → Received message
  unfolding process_event_data is_own value lookup str_eq
  process_event_data-Received type v message given small becomes =
      let read = strtol-print_time now small in
      elim (Bool-cases (str_eq (session_of c) (session_of c'))) [
        | inl own ↦ inl (
          (str_eq_iff (session_of c) (session_of c')).0 own,
          rw (process_event_data, given, is_own, own, read) refl,
        )
        | inr other ↦ inr (
          λ same. cc (other, (str_eq_iff (session_of c) (session_of c')).1 same),
          rw (process_event_data, given, is_own, other, becomes c c' (pos now), read) refl,
        )
      ]

-- the time that is sent with a command: 1 is added
abbrev pub sent_time : (Status → ℤ) → Status → Text
sent_time time s = print_time (wrap64 (pos 1 +ℤ time s))

module _ {N : Type 0} (curl : Curl N) (w : World N) (t : Tokens) (n : ℕ)
    (other : t.source ≢ sc_ajax)
    (server : every plain_char (shown w.main.config.ajax_server) ≡ true)
    (name : every plain_char w.main.config.client_name ≡ true)
    (init : curl.curl_easy_init w.app ≡ true)
    (performs : (url : Text) → (curl.curl_easy_perform url w.app).0 ≡ true) (now : ℕ)
    (clock : curl.time w.app ≡ pos now) (small : now < 2 ^ 63) where
  -- the event fits into the buffer of the address
  abbrev pub EventFits : Text → Text → Type 0
  EventFits type v =
      length (address w.main.config type (some (value_only v)) false (curl.time w.app))
      < url_buffsize

  abbrev asked : Text → World N
  asked url = record w { app = (curl.curl_easy_perform url w.app).1 }

  abbrev pub event_of : Text → Text → List Field
  event_of type v = fields w.main.config type (some (value_only v)) false (pos now)

  foreign : str_eq sc_ajax t.source ≡ false
  foreign = ground (arith, str_eq_iff sc_ajax t.source)

  -- the run of a handler that puts one event, and what a server reads of it
  abbrev pub PutsEvent : ManagerHandler N → Text → Text → Type 0
  PutsEvent h type v =
      (url : Text) × (h w t n ≡ done (pos 0, asked url, t)) × (query url ≡ some (event_of type v))

  put-PutsEvent :
      (h : ManagerHandler N) (type v : Text)
      → h w t n ≡ put curl type (some (value_only v)) false w t
      → every plain_char type ≡ true
      → every value_char v ≡ true
      → EventFits type v
      → PutsEvent h type v
  unfolding put
  put-PutsEvent h type v runs kind encoded fits =
      let p : IsPlain w.main.config type (some (value_only v)) = record {
        server = server;
        name = name;
        kind = kind;
        encoded = (encoded, refl);
      } in
      let (url, puts, reads) =
        ajax_put_event-query curl w.main.config type (some (value_only v)) false w.app p fits
          init in
      (url, runs ∙ rw puts (rw (performs url) refl), rw clock at reads)

  module _ (read_json : ReadJson) (json : Text) (c' : Configuration) (stamp : ℤ) where
    -- ... and what the program of `c'` makes of them
    abbrev pub Relayed : ManagerHandler N → (type v message : Text) → Type 0
    Relayed h type v message =
        PutsEvent h type v × Received read_json json w.main.config c' now stamp message

    put_time-Relayed :
        {i : ℕ} {time : Status → ℤ} {type cmd : Text}
        → Timed i time type cmd
        → (h : ManagerHandler N)
        → h w t n ≡ put curl type (some (value_only (time_text time w.main.status))) false w t
        → every plain_char type ≡ true
        → EventFits type (sent_time time w.main.status)
        → read_json json ≡ some (lookup (event_of type (sent_time time w.main.status)))
        → Relayed h type
            (sent_time time w.main.status)
            (cmd ++ sent_time time w.main.status ++ codes "\n")
    unfolding time_text
    put_time-Relayed {time = time} {type = type} {cmd = cmd} k h runs kind fits given =
        let v = sent_time time w.main.status in
        let digits = print_time-plain (wrap64 (pos 1 +ℤ time w.main.status)) in
        let becomes : Becomes type v (cmd ++ v ++ codes "\n") = λ c c' z.
          event_type-Timed k v c c' z
          ∙ ap (λ (u : Text). done (c', bounded msg_len (cmd ++ u ++ codes "\n")))
              (percent_decode-plain v digits) in
        (
          put-PutsEvent h type v runs kind (every_mono plain_char value_char v plain-value digits)
              fits,
          process_event_data-Received read_json json w.main.config c' now stamp type v
              (cmd ++ v ++ codes "\n") given small becomes,
        )

    -- START, INT and STOP of another source put one event, when the texts of the configuration need no encoding, the
    -- event fits into the buffer and the request succeeds, from which a server reads the parameters of `fields` with
    -- the time of the run and 1 added as the value. A program whose parser of JSON finds these parameters, the first
    -- of each name, in what it is handed makes the same command of it with that time, in 255 bytes at most, and
    -- keeps its configuration; if its session has the same name, it makes none.
    pub ajax_entries-Relayed :
        {i : ℕ} {time : Status → ℤ} {type cmd : Text}
        → Timed i time type cmd
        → EventFits type (sent_time time w.main.status)
        → read_json json ≡ some (lookup (event_of type (sent_time time w.main.status)))
        → (h : ManagerHandler N) × (ajax_entries curl i ≡ some h)
          × Relayed h type
              (sent_time time w.main.status)
              (cmd ++ sent_time time w.main.status ++ codes "\n")
    unfolding ajax_mgr_start ajax_mgr_int ajax_mgr_stop
    ajax_entries-Relayed starts fits given = (
      ajax_mgr_start curl,
      refl,
      put_time-Relayed starts (ajax_mgr_start curl) (rw foreign refl) refl fits given,
    )
    ajax_entries-Relayed ints fits given = (
      ajax_mgr_int curl,
      refl,
      put_time-Relayed ints (ajax_mgr_int curl) (rw foreign refl) refl fits given,
    )
    ajax_entries-Relayed stops fits given = (
      ajax_mgr_stop curl,
      refl,
      put_time-Relayed stops (ajax_mgr_stop curl) (rw foreign refl) refl fits given,
    )

    -- Under the same conditions OK of another source puts an event of which such a program makes the command `fail`,
    -- as of FAIL.
    pub ajax_mgr_ok-Relayed :
        EventFits (codes "crono_error") (codes "0")
        → read_json json ≡ some (lookup (event_of (codes "crono_error") (codes "0")))
        → Relayed (ajax_mgr_ok curl) (codes "crono_error") (codes "0") (codes "fail\n")
    unfolding ajax_mgr_ok
    ajax_mgr_ok-Relayed fits given = (
      put-PutsEvent (ajax_mgr_ok curl) (codes "crono_error") (codes "0") (rw foreign refl) refl refl
          fits,
      process_event_data-Received read_json json w.main.config c' now stamp (codes "crono_error")
          (codes "0") (codes "fail\n") given small (error_event (codes "0")),
    )
