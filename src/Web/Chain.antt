-- ===== src/Web/Chain.antt =====
-- From a command of the web page, through the queue and the thread of src/web_mgr.c, to the main loop of
-- src/main.c.
use mathlib.Core.Path.{subst}
use agility_contest_serial_c.Base.{
  ℕ, suc, ◌^◌, ◌<◌, ◌≡◌, ◌≢◌, refl, ap, sym, ◌∙◌, true, none, some, List, [], ◌∷◌, ◌++◌, ◌==◌,
  if◌then◌else◌, ℤ, Text, codes, take-length, length, map, done, All, arith, tolower,
}
use agility_contest_serial_c.Tools.{max_tokens}
use agility_contest_serial_c.Tools.Explode.{join, IsToken}
use agility_contest_serial_c.Parser.{find_index}
use agility_contest_serial_c.Queue.{Ptr, null, Queue, Heap}
use agility_contest_serial_c.Queue.Chain.{IsQueue}
use agility_contest_serial_c.Dispatch.{World, Slot}
use agility_contest_serial_c.Dispatch.Datagrams.{IsLine-append, join-some, IsServed, serve-join}
use agility_contest_serial_c.Generic.Reads.{IsLine}
use agility_contest_serial_c.Web.{sc_web}
use agility_contest_serial_c.Web.Server.{write_data, plus_to_space, buffer_size}
use agility_contest_serial_c.Web.Thread.{web_request, web_round}
use agility_contest_serial_c.Web.Commands.{answered, write_data-sends}

plus_to_space-append : (s t : Text) → plus_to_space (s ++ t) ≡ plus_to_space s ++ plus_to_space t
plus_to_space-append [] t = refl
plus_to_space-append (c ∷ s) t =
    ap (λ (r : Text). (if c == b'+' then b' ' else c) ∷ r) (plus_to_space-append s t)

plus_to_space-IsToken : (s : Text) → IsToken b'+' s → plus_to_space s ≡ s
plus_to_space-IsToken [] h = refl
plus_to_space-IsToken (c ∷ s) h = ground (arith, plus_to_space-IsToken s)

-- the plus signs between tokens become spaces
plus_to_space-join :
    (ts : List Text) → All (IsToken b'+') ts → plus_to_space (join b'+' ts) ≡ join b' ' ts
unfolding join
plus_to_space-join [] h = refl
plus_to_space-join (t ∷ []) h = plus_to_space-IsToken t h.0
plus_to_space-join (t ∷ u ∷ ts) h =
    plus_to_space-append t (b'+' ∷ join b'+' (u ∷ ts))
    ∙ rw (plus_to_space-IsToken t h.0) (rw (plus_to_space-join (u ∷ ts) h.1) refl)

length-plus : (s : Text) → length (plus_to_space s) ≡ length s
length-plus [] = refl
length-plus (c ∷ s) = ap suc (length-plus s)

-- A value of the page is put by writeData into the input queue, and the next round of the thread, which finds nothing
-- that has expired for the page, sends this datagram and empties the queue.
abbrev pub IsSent : Heap → Queue → ℕ → ℕ → Ptr → ℤ → (ℕ → ℤ) → Queue → Text → Text → Type 0
IsSent h q n fuel fresh now clock output value datagram =
    (q' : Queue) × (h' : Heap) × (q'' : Queue) × (h'' : Heap) × (write_data fresh true now (some q)
        h (some value)
      ≡ done (fresh, some q', h'))
    × (web_round (suc fuel)
          (record { input_queue = some q'; output_queue = some output; heap = h' }) (answered clock)
        ≡ done (
          some datagram,
          record { input_queue = some q''; output_queue = some output; heap = h'' },
          true,
        ))
    × IsQueue h'' q'' (suc n) []

module _ {h : Heap} {q : Queue} {n : ℕ} (fuel : ℕ) (fresh : Ptr) (now : ℤ) (clock : ℕ → ℤ)
    (output : Queue) (is : IsQueue h q n []) (ne : fresh ≢ null) (unused : h fresh ≡ none)
    (room : suc n < 2 ^ 31) (silent : output.first_out ≡ null) where
  value-IsSent :
      (value : Text)
      → 0 < length value
      → length value < buffer_size
      → IsSent h q n fuel fresh now clock output value (web_request (plus_to_space value))
  value-IsSent [] some_text short = absurd (omega arith)
  value-IsSent (c ∷ s) some_text short =
      write_data-sends fuel fresh now clock output c s is ne unused room short silent

  -- A command of the table with its arguments, at most 31 tokens without plus signs, spaces, CR, LF and 0 and
  -- shorter than 128 bytes, that the page sends with plus signs between the tokens, is executed by the main loop
  -- as a command of the web server, in lower case: when calloc and strdup succeed, the input queue is well formed
  -- and empty, and the thread finds nothing to expire.
  pub write_data-IsServed :
      {A : Type 0} (slots : List (Slot A)) (w : World A) (cmd : Text) (args : List Text) {index : ℕ}
      → All (IsToken b'+') (cmd ∷ args)
      → All (IsToken b' ') (cmd ∷ args)
      → IsLine (join b' ' (cmd ∷ args))
      → length (cmd ∷ args) < max_tokens
      → length (join b'+' (cmd ∷ args)) < buffer_size
      → cmd ≢ []
      → find_index (map tolower cmd) ≡ some index
      → (datagram : Text) × IsSent h q n fuel fresh now clock output
          (join b'+' (cmd ∷ args))
          datagram
        × IsServed slots w datagram index sc_web cmd args
  unfolding join
  write_data-IsServed slots w cmd args no_plus tokens plain few short cmd_ne found =
      let value = join b'+' (cmd ∷ args) in
      let line = join b' ' (cmd ∷ args) in
      let datagram = sc_web ++ b' ' ∷ line in
      let same = plus_to_space-join (cmd ∷ args) no_plus in
      let size : length line ≡ length value = ap (length {A = ℕ}) (sym same) ∙ length-plus value in
      let request : web_request (plus_to_space value) ≡ datagram =
        ap web_request same ∙ take-length datagram 1023 (omega (arith, size, short)) in
      let some_text : 0 < length value = omega (arith, size, join-some cmd args cmd_ne) in
      (
        datagram,
        subst (IsSent h q n fuel fresh now clock output value) request
            (value-IsSent value some_text short),
        serve-join slots w sc_web cmd args (refl, tokens)
            (IsLine-append (sc_web ++ codes " ") line refl plain) (omega (arith, few))
            (omega (arith, size, short)) cmd_ne found,
      )
