-- ===== src/Web/Thread.antt =====
-- The thread of src/web_mgr.c: a command that the page has put is sent to the main loop. The socket is a
-- parameter: what its calls return.
use agility_contest_serial_c.Base.{
  ℕ, ◌-◌, Bool, true, false, Option, none, some, List, [], ◌∷◌, ◌++◌, leb, if◌then◌else◌, ℤ, Text,
  take, Run, done, fault, ◌>>=◌,
}
use agility_contest_serial_c.Queue.{Queue, Heap, queue_get, queue_expire}
use agility_contest_serial_c.Web.{sc_web}

-- input_queue and output_queue, and the heap of their items
pub record Queues : Type 0 where
  pub input_queue : Option Queue
  pub output_queue : Option Queue
  pub heap : Heap

-- whether send succeeds, what recv returns, the readings of the time, and whether the index of the slot is
-- negative then
pub record Round : Type 0 where
  pub sent : Bool
  pub received : Option ℕ
  pub clock : ℕ → ℤ
  pub exits : Bool

abbrev pub request_size : ℕ
request_size = 1024

-- snprintf(request,1024,"%s %s",SC_WEBSRV,msg)
abbrev pub web_request : Text → Text
web_request msg = take (request_size - 1) (sc_web ++ b' ' ∷ msg)

-- the datagram, the queues, and whether the loop goes on
abbrev pub Outcome : Type 0
Outcome = Option Text × Queues × Bool

-- behind recv: what has expired for the page is dropped
unfoldable pub expire_output : ℕ → Text → Queues → Round → Run Outcome
unfolding queue_expire
expire_output fuel request qs r = do
  (unit, output, h) ← queue_expire fuel r.clock qs.output_queue qs.heap
  done
      (some request, record qs { output_queue = output; heap = h }, if r.exits then false else true)

-- recv fills the whole of `response` at most, and a 0 is written behind it; its error is none
unfoldable pub send_command : ℕ → Text → Queues → Round → Run Outcome
unfolding expire_output
send_command fuel request qs r =
    if r.sent
    then elim r.received [
      | none ↦ expire_output fuel request qs r
      | some n ↦ if leb request_size n then fault else expire_output fuel request qs r
    ]
    else done (none, qs, false)

-- the message that is taken: NULL and an empty one send nothing
abbrev pub take_command : ℕ → Option Text → Queues → Round → Run Outcome
unfolding send_command
take_command fuel none qs r = done (none, qs, true)
take_command fuel (some []) qs r = done (none, qs, true)
take_command fuel (some (c ∷ s)) qs r = send_command fuel (web_request (c ∷ s)) qs r

unfoldable pub web_round : ℕ → Queues → Round → Run Outcome
unfolding queue_get send_command
web_round fuel qs r = do
  (msg, input, h) ← queue_get qs.input_queue qs.heap
  take_command fuel msg (record qs { input_queue = input; heap = h }) r

abbrev pub add : Option Text → List Text → List Text
add none sent = sent
add (some datagram) sent = datagram ∷ sent

-- the datagrams, and whether the loop still runs behind the rounds
unfoldable pub web_loop : ℕ → Queues → List Round → Run (List Text × Bool)
unfolding web_round
web_loop fuel qs [] = done ([], true)
web_loop fuel qs (r ∷ rounds) = do
  (datagram, qs', on) ← web_round fuel qs r
  let rest = web_loop fuel qs' rounds
  (later, runs) ← (if on then rest else done ([], false))
  done (add datagram later, runs)
