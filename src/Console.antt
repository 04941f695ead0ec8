-- ===== src/Console.antt =====
-- The thread of src/console_mgr.c: a line from the terminal becomes a datagram to the main loop. The terminal and
-- the socket are parameters: what their calls return. The handlers are in
-- Console/Handlers.
pub mod Lines
pub mod Chain
pub mod Handlers
mod Tests
use agility_contest_serial_c.Base.{
  ℕ, zero, suc, ◌+◌, Bool, true, false, Option, none, some, List, [], ◌∷◌, ◌++◌, leb, if◌then◌else◌,
  Text, codes, strchr, take, drop, length, Run, done, fault, ◌>>=◌,
}
use agility_contest_serial_c.Dispatch.{c_string}

-- the size of `request` and of `response`
abbrev pub request_size : ℕ
request_size = 1024

-- SC_CONSOLE and a space, and its length
abbrev pub prefix : Text
prefix = codes "user_server "

abbrev pub offset : ℕ
offset = 12

-- bytes that are written into a buffer at a position
abbrev pub store : ℕ → Text → Text → Text
store at s buffer = take at buffer ++ (s ++ drop (at + length s) buffer)

-- What the calls of one round return: fgets the text up to its newline, `none` at the end of the input;
-- whether send succeeds; recv the number of bytes, `none` for an error; and whether the index of the slot is
-- negative then.
pub record Round : Type 0 where
  pub typed : Option Text
  pub sent : Bool
  pub received : Option ℕ
  pub exits : Bool

-- `none` is fgets that writes more than the size it is given
unfoldable pub read_line : Text → Option Text → Run Text
read_line request none = done (store 0 (codes "exit" ++ 0 ∷ []) request)
read_line request (some text) =
    if leb request_size (offset + length text)
    then fault
    else done (store offset (text ++ 0 ∷ []) request)

-- `if ((p=strchr(request, '\n')) != NULL) *p='\0'`
unfoldable pub strip_newline : Text → Text
unfolding strchr c_string
strip_newline request = elim (strchr (c_string request) b'\n') [
  | none ↦ request
  | some (before, behind) ↦ store (length before) (0 ∷ []) request
]

-- the datagram, if there is one, the buffer, and whether the loop goes on
abbrev pub Outcome : Type 0
Outcome = Option Text × Text × Bool

-- recv fills the whole of `response` at most, and a 0 is written behind it
unfoldable pub send_request : Text → Round → Run Outcome
unfolding c_string
send_request request r =
    if r.sent
    then elim r.received [
      | none ↦ done (some (c_string request), request, false)
      | some n ↦
          if leb request_size n
          then fault
          else done (some (c_string request), request, if r.exits then false else true)
    ]
    else done (none, request, false)

unfoldable pub console_round : Text → Round → Run Outcome
unfolding read_line strip_newline c_string send_request
console_round buffer r = do
  read ← read_line buffer r.typed
  let request = strip_newline read
  (if leb (length (c_string (drop offset request))) 0
      then done (none, request, true)
      else send_request request r)

abbrev pub add : Option Text → List Text → List Text
add none sent = sent
add (some datagram) sent = datagram ∷ sent

-- the datagrams, and whether the loop still runs behind the rounds
unfoldable pub console_loop : Text → List Round → Run (List Text × Bool)
unfolding console_round
console_loop request [] = done ([], true)
console_loop request (r ∷ rounds) = do
  (datagram, request', on) ← console_round request r
  let rest = console_loop request' rounds
  (later, runs) ← (if on then rest else done ([], false))
  done (add datagram later, runs)

abbrev pub zeros : ℕ → Text
zeros zero = []
zeros (suc n) = 0 ∷ zeros n

-- `request` from calloc, with the name of the console
abbrev pub first_request : Text
first_request = prefix ++ zeros 1012

-- The thread behind its start: `ready` tells whether the socket and the buffers were got; none is a start
-- that fails, which marks nothing.
unfoldable pub console_manager_thread : Bool → List Round → Option (Run (List Text × Bool))
unfolding console_loop
console_manager_thread ready rounds =
    if ready then some (console_loop first_request rounds) else none
