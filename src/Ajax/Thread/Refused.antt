-- ===== src/Ajax/Thread/Refused.antt =====
-- The thread of src/ajax_mgr.c when the license of the server does not allow a chronometer.
use agility_contest_serial_c.Base.{
  ℕ, zero, suc, ◌<◌, ◌≡◌, refl, Bool, false, some, List, [], ◌∷◌, leb, Text, codes, length, All,
  done, arith,
}
use agility_contest_serial_c.Events.{ReadJson}
use agility_contest_serial_c.Events.Batch.{ReadDocument}
use agility_contest_serial_c.Ajax.Thread.{
  Perform, Answers, refused, warned, Link, request_of, refusal_text, send_commands, link_round,
  link_loop,
}

-- every request is sent, and answered by less than what fills the buffer
abbrev pub IsAnswered : Answers → Type 0
IsAnswered a = (t : Text) → (n : ℕ) × (a t ≡ some (some n)) × (n < 1024)

-- the requests of the commands that are not empty
abbrev pub requests : List Text → List Text
requests [] = []
requests ([] ∷ cmds) = requests cmds
requests ((c ∷ cmd) ∷ cmds) = request_of (c ∷ cmd) ∷ requests cmds

pub send_commands-requests :
    (a : Answers) (cmds : List Text) → IsAnswered a → send_commands a cmds ≡ done (requests cmds)
unfolding send_commands
send_commands-requests a [] h = refl
send_commands-requests a ([] ∷ cmds) h = rw (send_commands-requests a cmds h) refl
send_commands-requests a ((c ∷ cmd) ∷ cmds) h =
    let (n, answer, small) = h (request_of (c ∷ cmd)) in
    let fits : leb 1024 n ≡ false = ground (arith, small) in
    let some_text : leb (suc (length cmd)) 0 ≡ false = ground arith in
    rw (send_commands-requests a cmds h) (rw some_text (rw answer (rw fits refl)))

abbrev pub exits : ℕ → List Text
exits zero = []
exits (suc n) = request_of (codes "EXIT") ∷ exits n

module _ {N : Type 0} (perform : Perform N) (read_document : ReadDocument) (read_json : ReadJson)
    (calloc : ℕ → Bool) where
  link_loop-warned :
      (rounds : List Answers) (l : Link N)
      → All IsAnswered rounds
      → link_loop perform read_document read_json calloc rounds (record l { license = warned })
        ≡ done (exits (length rounds), record l { license = warned })
  unfolding link_loop link_round
  link_loop-warned [] l h = refl
  link_loop-warned (a ∷ rounds) l h =
      rw (send_commands-requests a (codes "EXIT" ∷ []) h.0)
        (rw (link_loop-warned rounds l h.1) refl)

  -- When the permissions do not allow a chronometer and every request is sent and answered, the thread sends
  -- one message in its first round and EXIT in each of the others, never asks the server for events, and
  -- leaves the configuration as it is.
  pub link_loop-refused :
      (a : Answers) (rounds : List Answers) (l : Link N)
      → All IsAnswered (a ∷ rounds)
      → link_loop perform read_document read_json calloc
          (a ∷ rounds)
          (record l { license = refused })
        ≡ done (request_of refusal_text ∷ exits (length rounds), record l { license = warned })
  unfolding link_loop link_round
  link_loop-refused a rounds l h =
      rw (send_commands-requests a (refusal_text ∷ []) h.0)
        (rw (link_loop-warned rounds l h.1) refl)
