-- ===== src/Reader.antt =====
-- src/serial_mgr.c and src/net_mgr.c, the threads: the module is loaded, then every line that it reads is
-- sent to the main loop as a datagram. Sockets, the loader and the module are parameters: what their calls
-- return.
pub mod Chain
pub mod Loop
pub mod Start
mod Tests
use agility_contest_serial_c.Base.{
  wrap32, ℕ, ◌+◌, Bool, true, false, ◌&&◌, Option, none, some, List, [], ◌∷◌, ◌++◌, leb,
  if◌then◌else◌, Text, codes, strchr, take, length, Run, done, fault, ◌>>=◌, ℤ, ◌+ℤ◌,
}
use agility_contest_serial_c.Config.{Configuration}

-- What the calls of one round return: module_read its result and the text in the buffer, `none` for an
-- error; whether send succeeds; recv the number of bytes, `none` for an error; and whether the index of
-- the slot is negative then.
pub record Round : Type 0 where
  pub heard : Option (ℕ × Text)
  pub sent : Bool
  pub received : Option ℕ
  pub exits : Bool

-- the size of `request` and of `response`
abbrev pub request_size : ℕ
request_size = 1024

-- the name of the manager and a space, in front of what is read
abbrev pub prefix : Text → Text
prefix self = self ++ codes " "

-- `if ((p=strchr(request, '\n')) != NULL) *p='\0'`
abbrev pub strip_newline : Text → Text
strip_newline s = elim (strchr s b'\n') [ none ↦ s | some (line, behind) ↦ line ]

-- What a round does: the datagram that it sends, if it does, and whether the loop goes on.
abbrev pub Outcome : Type 0
Outcome = Option Text × Bool

-- behind the call of send; recv fills the whole of `response` at most, and a 0 is written behind it
unfoldable pub answered : Text → Round → Run Outcome
answered request r =
    if r.sent
    then elim r.received [
      | none ↦ done (some request, true)
      | some n ↦
          if leb request_size n then fault else done (some request, if r.exits then false else true)
    ]
    else done (none, false)

-- A line that was read into the buffer, whose result is `n`: `request[offset+res]='\0'`, where the name of the
-- manager holds no newline.
unfoldable pub forward : Text → Round → ℕ → Text → Run Outcome
unfolding strchr answered
forward self r n text =
    if leb request_size (length (prefix self) + n)
    then fault
    else let line = strip_newline (take n text) in
      if leb (length line) 0 then done (none, true) else answered (prefix self ++ line) r

unfoldable pub reader_round : Text → Round → Run Outcome
unfolding forward
reader_round self r = elim r.heard [
  | none ↦ done (none, true)
  | some (n, text) ↦ forward self r n text
]

abbrev pub add : Option Text → List Text → List Text
add none sent = sent
add (some datagram) sent = datagram ∷ sent

-- the loop: the datagrams that were sent, and whether it still runs behind the rounds
unfoldable pub reader_loop : Text → List Round → Run (List Text × Bool)
unfolding reader_round
reader_loop self [] = done ([], true)
reader_loop self (r ∷ rounds) = do
  (datagram, on) ← reader_round self r
  let rest = reader_loop self rounds
  (later, runs) ← (if on then rest else done ([], false))
  done (add datagram later, runs)

-- The calls that take or give back a part of the module.
pub data Call : Type 0 where
  loads : Call
  inits : Call
  opens : Call
  closes : Call
  deinits : Call
  unloads : Call

-- what the calls in front of the loop return; dlopen is given the file of the module, dlsym finds a name or does not
pub record Host : Type 0 where
  pub connect_udp : Text → ℤ → Bool
  pub dlopen : Text → Bool
  pub dlsym : Text → Bool
  pub module_init : Configuration → Bool × Configuration
  pub module_open : Configuration → Bool

-- What the start leaves: the calls that succeeded, the configuration, and whether the loop is entered;
-- else the index of the slot is -1.
pub record Started : Type 0 where
  pub calls : List Call
  pub config : Configuration
  pub enters : Bool

abbrev pub symbols : List Text
symbols =
    codes "module_init"
    ∷ codes "module_end"
    ∷ codes "module_open"
    ∷ codes "module_close"
    ∷ codes "module_read"
    ∷ codes "module_write"
    ∷ codes "module_error"
    ∷ []

unfoldable pub all_found : (Text → Bool) → List Text → Bool
all_found dlsym [] = true
all_found dlsym (name ∷ names) = dlsym name && all_found dlsym names

abbrev pub without_port : Configuration → Configuration
without_port c = record c { comm_port = none }

abbrev pub without_address : Configuration → Configuration
without_address c = record c { comm_ipaddr = none }

abbrev fails : List Call → Configuration → Started
fails calls c = record { calls = calls; config = c; enters = false }

-- `lost` is what the manager does to the configuration when the module does not start
unfoldable pub start_module : (Configuration → Configuration) → Host → Configuration → Started
start_module lost host c =
    let (ready, c') = host.module_init c in
    if ready
    then if host.module_open c'
      then record { calls = loads ∷ inits ∷ opens ∷ []; config = c'; enters = true }
      else fails (loads ∷ inits ∷ deinits ∷ unloads ∷ []) (lost c')
    else fails (loads ∷ unloads ∷ []) (lost c')

unfoldable pub start : (Configuration → Configuration) → Host → Configuration → Started
unfolding all_found start_module ◌+ℤ◌ wrap32
start lost host c =
    if host.connect_udp (codes "localhost") (wrap32 (c.local_port +ℤ c.ring))
    then if host.dlopen c.driver
      then if all_found host.dlsym symbols
        then start_module lost host c
        else fails (loads ∷ unloads ∷ []) (without_port c)
      else fails [] (without_port c)
    else fails [] c

-- serial_manager_thread and network_manager_thread: the calls, the datagrams, and whether the thread runs
-- behind the rounds
pub record Ran : Type 0 where
  pub calls : List Call
  pub config : Configuration
  pub datagrams : List Text
  pub runs : Bool

-- behind the loop the module is given back
abbrev pub behind_loop : Started → List Text → Bool → Ran
behind_loop s sent on = record {
  calls = if on then s.calls else s.calls ++ closes ∷ deinits ∷ unloads ∷ [];
  config = s.config;
  datagrams = sent;
  runs = on;
}

abbrev pub not_started : Started → Ran
not_started s = record { calls = s.calls; config = s.config; datagrams = []; runs = false }

unfoldable pub manager_thread :
    Text → (Configuration → Configuration) → Host → Configuration → List Round → Run Ran
unfolding start reader_loop
manager_thread self lost host c rounds =
    let s = start lost host c in
    if s.enters
    then (do (sent, on) ← reader_loop self rounds; done (behind_loop s sent on))
    else done (not_started s)
