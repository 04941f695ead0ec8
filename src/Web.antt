-- ===== src/Web.antt =====
-- src/web_mgr.c: the manager of the web page, which puts the commands into the queue that the page polls.
-- calloc, strdup and the clock are parameters: what they return for the next item.
pub mod Puts
pub mod Server
pub mod Thread
pub mod Pages
pub mod Commands
pub mod Chain
mod Tests
use agility_contest_serial_c.Base.{
  ℕ, ◌-◌, Bool, Option, none, some, List, [], ◌∷◌, ◌++◌, ◌==◌, ltb, if◌then◌else◌, ℤ, pos, negsuc,
  Text, codes, str_eq, print_int, take, length, get_elem?, Run, done, fault, ◌>>=◌,
}
use agility_contest_serial_c.Queue.{Ptr, Queue, Heap, queue_put}
use agility_contest_serial_c.Tokens.{Tokens}
use agility_contest_serial_c.Dispatch.{World, ManagerHandler}

-- SC_WEBSRV
abbrev pub sc_web : Text
sc_web = codes "web_server"

-- output_queue, and the heap of its items
pub record Page : Type 0 where
  pub output_queue : Option Queue
  pub heap : Heap

-- the address of the next item, whether its text is copied, and the time
pub record Supply : Type 0 where
  pub calloc : Heap → Ptr
  pub strdup : Heap → Bool
  pub now : Heap → ℤ

-- the text that sprintf makes of the tokens
abbrev pub spaced : Text → List Text → Text
spaced acc [] = acc
spaced acc (a ∷ rest) = spaced (acc ++ b' ' ∷ a) rest

abbrev pub text_of : Tokens → ℕ → Text
text_of t n = spaced t.cmd (take (n - 2) t.args)

module _ (supply : Supply) where
  -- queue_put(output_queue,msg)
  unfoldable pub put : Text → World Page → Run (World Page)
  unfolding queue_put
  put msg w = do
    let h = w.app.heap
    (p, q, h') ←
        queue_put (supply.calloc h) (supply.strdup h) (supply.now h) w.app.output_queue (some msg) h
    done (record w { app = record { output_queue = q; heap = h' } })

  -- a message and the length that is returned for it
  unfoldable pub send : Text → ℕ → World Page → Tokens → Run (ℤ × World Page × Tokens)
  unfolding put
  send msg len w t = do w' ← put msg w; done (pos len, w', t)

  -- web_mgr_sendMsg behind its test of the source; its buffer has 1024 bytes
  unfoldable pub send_tokens : ManagerHandler Page
  unfolding send
  send_tokens w t n =
      let msg = text_of t n in if ltb (length msg) 1024 then send msg (length msg) w t else fault

  abbrev unless_web : ManagerHandler Page → ManagerHandler Page
  unfolding str_eq
  unless_web handler w t n = if str_eq sc_web t.source then done (pos 0, w, t) else handler w t n

  unfoldable pub web_mgr_send_msg : ManagerHandler Page
  unfolding send_tokens str_eq
  web_mgr_send_msg = unless_web send_tokens

  -- the handlers that send a text of their own where there is no argument
  abbrev send_or : Text → ℕ → ManagerHandler Page
  unfolding send web_mgr_send_msg str_eq
  send_or msg len =
      unless_web (λ w t n. if n == 3 then web_mgr_send_msg w t n else send msg len w t)

  unfoldable pub web_mgr_send_start : ManagerHandler Page
  unfolding send web_mgr_send_msg str_eq
  web_mgr_send_start = send_or (codes "start 0") 7

  unfoldable pub web_mgr_send_walk : ManagerHandler Page
  unfolding send web_mgr_send_msg str_eq
  web_mgr_send_walk = send_or (codes "walk 420") 8

  unfoldable pub web_mgr_send_down : ManagerHandler Page
  unfolding send web_mgr_send_msg str_eq
  web_mgr_send_down = send_or (codes "down 15") 7

  abbrev send_number : Text → ℤ → World Page → Tokens → Run (ℤ × World Page × Tokens)
  unfolding send print_int
  send_number cmd z w t = let msg = cmd ++ print_int z in send msg (length msg) w t

  unfoldable pub web_mgr_send_turn : ManagerHandler Page
  unfolding send print_int str_eq
  web_mgr_send_turn = unless_web (λ w t n. send_number (codes "turn ") w.main.status.numero w t)

  unfoldable pub web_mgr_send_bright : ManagerHandler Page
  unfolding send print_int str_eq
  web_mgr_send_bright = unless_web (λ w t n. send_number (codes "bright ") w.main.config.bright w t)

  unfoldable pub web_mgr_exit : ManagerHandler Page
  web_mgr_exit w t n = done (negsuc 0, w, t)

  -- the table, NULL behind its end
  abbrev pub web_list : List (Option (ManagerHandler Page))
  web_list =
      some web_mgr_send_start
      ∷ some web_mgr_send_msg
      ∷ some web_mgr_send_msg
      ∷ some web_mgr_send_msg
      ∷ some web_mgr_send_msg
      ∷ some web_mgr_send_msg
      ∷ some web_mgr_send_walk
      ∷ some web_mgr_send_down
      ∷ none
      ∷ none
      ∷ none
      ∷ none
      ∷ some web_mgr_send_msg
      ∷ none
      ∷ none
      ∷ some web_mgr_exit
      ∷ none
      ∷ none
      ∷ none
      ∷ none
      ∷ some web_mgr_send_turn
      ∷ some web_mgr_send_bright
      ∷ none
      ∷ none
      ∷ none
      ∷ []

  abbrev pub web_entries : ℕ → Option (ManagerHandler Page)
  web_entries i = elim (get_elem? web_list i) [ none ↦ none | some e ↦ e ]
