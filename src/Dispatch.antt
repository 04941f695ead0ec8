-- ===== src/Dispatch.antt =====
-- The main loop of src/main.c: each datagram is a command that goes to the main manager and then to
-- the manager threads. The state of the managers is a parameter, and so are their handlers.
pub mod Ends
pub mod Errors
pub mod Datagrams
pub mod Valid
mod Tests
use agility_contest_serial_c.Base.{
  ℕ, ◌+◌, Bool, true, false, ◌||◌, Option, none, some, List, [], ◌∷◌, ◌==◌, leb, if◌then◌else◌, ℤ,
  pos, ltb_ℤ, Text, codes, str_eq, tolower, map, length, take, get_elem?, Run, done, fault, ◌>>=◌,
}
use agility_contest_serial_c.Tools.{explode, stripos}
use agility_contest_serial_c.Tokens.{Tokens, ntokens}
use agility_contest_serial_c.Parser.{find_index}
use agility_contest_serial_c.MainMgr.{Main, main_mgr_entries}

-- The state of the main manager, and that of the others.
pub record World (A : Type 0) : Type 0 where
  pub main : Main
  pub app : A

-- A handler of a manager thread: the result, the state, and the token array, which it may change.
abbrev pub ManagerHandler : Type 0 → Type 0
ManagerHandler A = World A → Tokens → ℕ → Run (ℤ × World A × Tokens)

-- What the loop reads of an sc_thread_slot: whether its index is at least 0, and the table of its
-- manager, in which a NULL is none.
pub record Slot (A : Type 0) : Type 0 where
  pub alive : Bool
  pub entries : Option (ℕ → Option (ManagerHandler A))

-- What one round of the loop leaves: the state, the answer to the client if there is one, and whether
-- the loop goes on.
pub record Served (A : Type 0) : Type 0 where
  pub world : World A
  pub response : Option Text
  pub loop : Bool

-- A C string ends at its first 0.
unfoldable pub c_string : Text → Text
c_string [] = []
c_string (c ∷ s) = if c == 0 then [] else c ∷ c_string s

abbrev pub response_ok : Text
response_ok = codes "OK"

abbrev pub response_error : Text
response_error = codes "ERROR"

abbrev pub response_main_error : Text
response_main_error = codes "main_mgr ERROR"

-- stripos(buffer,"exit")>=0
unfoldable pub has_exit : Text → Bool
has_exit buffer =
    if ltb_ℤ (stripos (some buffer) (some (codes "exit"))) (pos 0) then false else true

-- The size of the buffer of recvfrom, which reads so many bytes at most.
abbrev pub buffer_size : ℕ
buffer_size = 500

-- What the loop over the threads carries along.
pub record Sent (A : Type 0) : Type 0 where
  pub world : World A
  pub tokens : Tokens
  pub response : Text
  pub alive : ℕ

module _ {A : Type 0} where
  -- a handler is called and its result is noted
  abbrev pub deliver : ManagerHandler A → ℕ → Sent A → Run (Sent A)
  deliver handler n s = do
    (res, world, tokens) ← handler s.world s.tokens n
    done (record {
      world = world;
      tokens = tokens;
      response = if ltb_ℤ res (pos 0) then response_error else s.response;
      alive = s.alive + 1;
    })

  -- one round of the loop over the threads
  unfoldable pub send_to : ℕ → ℕ → Slot A → Sent A → Run (Sent A)
  send_to index n slot s =
      if slot.alive
      then elim slot.entries [
        | none ↦ done s
        | some entries ↦ elim (entries index) [
          | none ↦ done (record s { alive = s.alive + 1 })
          | some handler ↦ deliver handler n s
        ]
      ]
      else done s

  unfoldable pub send_all : ℕ → ℕ → List (Slot A) → Sent A → Run (Sent A)
  unfolding send_to
  send_all index n [] s = done s
  send_all index n (slot ∷ slots) s = do s' ← send_to index n slot s; send_all index n slots s'

  -- the end of a round: without a live thread, or when the text holds "exit", the loop ends
  unfoldable pub finish : Text → Sent A → Served A
  finish buffer s = record {
    world = s.world;
    response = some s.response;
    loop = if s.alive == 0 || has_exit buffer then false else true;
  }

  abbrev pub answer : World A → Text → Run (Served A)
  answer w response = done (record { world = w; response = some response; loop = true })

  -- The threads of which the loop serves the managers: those of the slots 0 to 3.
  abbrev pub served_slots : List (Slot A) → List (Slot A)
  served_slots = take 4

  -- What follows the call of the main manager's handler.
  unfoldable pub after_main :
      List (Slot A) → Text → ℕ → Tokens → World A → ℤ × Main → Run (Served A)
  unfolding send_all finish
  after_main slots buffer index t w (res, m) =
      if ltb_ℤ res (pos 0) then answer (record w { main = m }) response_main_error else do
        s ← send_all index (ntokens t) (served_slots slots) (record {
          world = record w { main = m };
          tokens = t;
          response = response_ok;
          alive = 0;
        })
        done (finish buffer s)

  -- A command whose name was found at an index.
  unfoldable pub execute : List (Slot A) → Text → ℕ → Tokens → World A → Run (Served A)
  unfolding after_main
  execute slots buffer index t w = elim (get_elem? main_mgr_entries index) [
    | none ↦ after_main slots buffer index t w (pos 0, w.main)
    | some handler ↦ (do r ← handler w.main t (ntokens t); after_main slots buffer index t w r)
  ]

  -- The tokens of a datagram. A command that is not in the table gives the index -1, at which the
  -- table is read, in front of its first entry.
  unfoldable pub interpret : List (Slot A) → Text → List Text → World A → Run (Served A)
  unfolding tolower str_eq find_index execute
  interpret slots buffer [] w = answer w response_error
  interpret slots buffer (source ∷ []) w = answer w response_error
  interpret slots buffer (source ∷ cmd ∷ args) w =
      if str_eq cmd []
      then answer w response_ok
      else let lower = map tolower cmd in
        let t : Tokens = record { source = source; cmd = lower; args = args } in
        elim (find_index lower) [ none ↦ fault | some index ↦ execute slots buffer index t w ]

  -- One round of the main loop; none is an error of recvfrom. The 0 behind the bytes that were read
  -- is written outside the buffer if that is full.
  unfoldable pub serve : List (Slot A) → World A → Option Text → Run (Served A)
  unfolding c_string explode interpret
  serve slots w none = done (record { world = w; response = none; loop = true })
  serve slots w (some datagram) =
      if leb buffer_size (length datagram)
      then fault
      else let buffer = c_string datagram in
        do tokens ← explode buffer b' '; interpret slots buffer tokens w
