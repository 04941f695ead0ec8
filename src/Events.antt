-- ===== src/Events.antt =====
-- src/ajax_json.c, process_eventData: what an event of the server does to the state of the run, and the
-- command that it becomes. The parser of JSON is a parameter: the object of a text, as a function from
-- names to values; none for a text that it refuses, which C goes on with as a null pointer.
pub mod Own
pub mod Dog
pub mod Batch
mod Tests
use agility_contest_serial_c.Base.{
  ℕ, ◌^◌, Bool, false, Option, none, some, [], ◌++◌, if◌then◌else◌, ℤ, pos, ◌+ℤ◌, wrap32, unsigned,
  Text, codes, str_eq, strchr, atoi, strtol, print_int, print_nat, Run, done, fault, ◌>>=◌,
}
use agility_contest_serial_c.Config.{Configuration, Status}
use agility_contest_serial_c.Tools.{get_session_name}
use agility_contest_serial_c.Digican.{bounded}

-- json_getPropertyValue on the object of an event
abbrev pub Properties : Type 0
Properties = Text → Option Text

-- json_create
abbrev pub ReadJson : Type 0
ReadJson = Text → Option Properties

-- what an event leaves: the time stamp, the configuration, and the command, empty for none
pub record Event : Type 0 where
  pub timestamp : ℤ
  pub config : Configuration
  pub message : Text

abbrev pub msg_len : ℕ
msg_len = 256

-- a value that must not be NULL
unfoldable pub value : Properties → Text → Run Text
value get key = elim (get key) [ none ↦ fault | some v ↦ done v ]

-- a value for %s, where glibc prints a NULL so
abbrev pub shown : Option Text → Text
shown none = codes "(null)"
shown (some v) = v

unfoldable pub number : Properties → Text → Run ℤ
unfolding value atoi
number get key = do v ← value get key; done (atoi v)

-- `-1` stands for a value that stays
unfoldable pub number_or : Properties → Text → ℤ → Run ℤ
unfolding value atoi str_eq
number_or get key old = do v ← value get key; done (if str_eq v (codes "-1") then old else atoi v)

abbrev with_status : Configuration → Status → Configuration
with_status c s = record c { status = s }

-- what `init` and `open` set to 0
abbrev pub no_dog : Status → Status
no_dog s = record s {
  numero = pos 0;
  dorsal = pos 0;
  perro = pos 0;
  equipo = pos 0;
  faults = pos 0;
  touchs = pos 0;
  refusals = pos 0;
  eliminated = pos 0;
  notpresent = pos 0;
}

abbrev silent : Configuration → Run (Configuration × Text)
silent c = done (c, [])

abbrev says : Configuration → Text → Run (Configuration × Text)
says c s = done (c, bounded msg_len s)

unfoldable pub event_init : Configuration → Properties → Run (Configuration × Text)
unfolding number
event_init c get = do
  pru ← number get (codes "Pru")
  jor ← number get (codes "Jor")
  silent (
      with_status c
        (record (no_dog c.status) { prueba = pru; jornada = jor; manga = pos 0; tanda = pos 0 }))

unfoldable pub event_open : Configuration → Properties → Run (Configuration × Text)
unfolding number
event_open c get = do
  mng ← number get (codes "Mng")
  tnd ← number get (codes "Tnd")
  silent (with_status c (record (no_dog c.status) { manga = mng; tanda = tnd }))

-- crono_dat and datos have the same code
unfoldable pub event_data : Configuration → Properties → Run (Configuration × Text)
unfolding number_or print_int ◌+ℤ◌ wrap32
event_data c get = do
  f ← number_or get (codes "Flt") c.status.faults
  t ← number_or get (codes "Toc") c.status.touchs
  r ← number_or get (codes "Reh") c.status.refusals
  e ← number_or get (codes "Eli") c.status.eliminated
  n ← number_or get (codes "NPr") c.status.notpresent
  says c (
      codes "data "
      ++ print_int (wrap32 (f +ℤ t))
      ++ codes ":"
      ++ print_int r
      ++ codes ":"
      ++ print_int e
      ++ codes "\n")

-- The flag for a dog that is not present is taken over if the faults are not `-1`.
unfoldable pub not_present : Properties → ℤ → Run ℤ
unfolding value number str_eq
not_present get old = do
  flt ← value get (codes "Flt")
  if str_eq (codes "-1") flt then done old else number get (codes "NPr")

unfoldable pub event_call : Configuration → Properties → Run (Configuration × Text)
unfolding number number_or not_present
event_call c get = do
  drs ← number get (codes "Drs")
  dog ← number get (codes "Dog")
  eqp ← number get (codes "Eqp")
  f ← number_or get (codes "Flt") c.status.faults
  t ← number_or get (codes "Toc") c.status.touchs
  r ← number_or get (codes "Reh") c.status.refusals
  e ← number_or get (codes "Eli") c.status.eliminated
  n ← not_present get c.status.notpresent
  says
      (with_status c (record c.status {
        dorsal = drs;
        perro = dog;
        equipo = eqp;
        faults = f;
        touchs = t;
        refusals = r;
        eliminated = e;
        notpresent = n;
      }))
      (codes "turn " ++ shown (get (codes "Numero")) ++ codes "\n")

unfoldable pub event_walk : Configuration → Properties → Run (Configuration × Text)
unfolding strtol print_nat unsigned
event_walk c get =
    let seconds : ℤ = elim (get (codes "start")) [ none ↦ pos 0 | some s ↦ strtol s ] in
    says c (codes "walk " ++ print_nat (unsigned (2 ^ 64) seconds) ++ codes "\n")

-- only the operation 8 is a command: `seconds:message`
unfoldable pub event_command : Configuration → Properties → Run (Configuration × Text)
unfolding value str_eq strchr
event_command c get = do
  oper ← value get (codes "Oper")
  if str_eq (codes "8") oper
      then (do
        secs ← value get (codes "Value")
        elim (strchr secs b':') [
          | none ↦ says c (codes "msg " ++ secs ++ codes " (null)\n")
          | some (before, behind) ↦
              says c (codes "msg " ++ before ++ codes " " ++ behind ++ codes "\n")
        ])
      else silent c

abbrev timed : Text → Configuration → Properties → Run (Configuration × Text)
timed cmd c get = says c (cmd ++ shown (get (codes "Value")) ++ codes "\n")

-- crono_int reads the value as a number first, which must not be NULL
unfoldable pub event_int : Configuration → Properties → Run (Configuration × Text)
unfolding value
event_int c get = do v ← value get (codes "Value"); timed (codes "int ") c get

-- the chain of tests on the type; all other types have no action
unfoldable pub event_type : Text → Configuration → Properties → Run (Configuration × Text)
unfolding str_eq event_init event_open event_walk event_data event_call event_command
event_type typestr c get =
    if str_eq typestr (codes "init")
    then event_init c get
    else if str_eq typestr (codes "open")
    then event_open c get
    else if str_eq typestr (codes "salida")
    then says c (codes "down 15\n")
    else if str_eq typestr (codes "start")
    then timed (codes "start ") c get
    else if str_eq typestr (codes "stop")
    then timed (codes "stop ") c get
    else if str_eq typestr (codes "crono_start")
    then timed (codes "start ") c get
    else if str_eq typestr (codes "crono_int")
    then event_int c get
    else if str_eq typestr (codes "crono_stop")
    then timed (codes "stop ") c get
    else if str_eq typestr (codes "crono_rec")
    then event_walk c get
    else if str_eq typestr (codes "crono_dat")
    then event_data c get
    else if str_eq typestr (codes "crono_reset")
    then says c (codes "reset\n")
    else if str_eq typestr (codes "crono_error")
    then says c (codes "fail\n")
    else if str_eq typestr (codes "crono_ready")
    then says c (codes "ok\n")
    else if str_eq typestr (codes "llamada")
    then event_call c get
    else if str_eq typestr (codes "datos")
    then event_data c get
    else if str_eq typestr (codes "command")
    then event_command c get
    else silent c

-- the event comes from this program: its session name is ours
unfoldable pub is_own : Configuration → Properties → Bool
unfolding str_eq get_session_name
is_own c get = elim (get (codes "SessionName")) [
  | none ↦ false
  | some sname ↦ str_eq sname (get_session_name c.status.session_id c.client_name)
]

module _ (read_json : ReadJson) where
  unfoldable pub process_event_data : Configuration → Text → ℤ → Run Event
  unfolding is_own event_type value strtol
  process_event_data c datastr timestamp = elim (read_json datastr) [
    | none ↦ fault
    | some get ↦
        let ts : ℤ = elim (get (codes "TimeStamp")) [ none ↦ timestamp | some s ↦ strtol s ] in
        if is_own c get then done (record { timestamp = ts; config = c; message = [] }) else do
          typestr ← value get (codes "Type")
          (c', message) ← event_type typestr c get
          done (record { timestamp = ts; config = c'; message = message })
  ]
