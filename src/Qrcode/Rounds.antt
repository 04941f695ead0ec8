-- ===== src/Qrcode/Rounds.antt =====
-- The loop of the thread of src/qrcode_mgr.c is defined.
use agility_contest_serial_c.Base.{
  ℕ, ◌<◌, Bool, true, false, Option, none, some, List, [], ◌∷◌, pos, ◌≡◌, refl, arith, Text, length,
  Run, done, All, inl, inr, Bool-cases, Option-cases, ltb_ℤ, eqb_ℤ, ◌&&◌, if_holds, leb,
}
use agility_contest_serial_c.Qrcode.{
  Last, Round, Outcome, qr_round, qr_loop, read_code, send_turn, first_line, parse_dorsal, add,
}
use agility_contest_serial_c.Dispatch.{c_string}

-- what is read and what is received leaves room for the 0 behind it
abbrev HeardFits : Option Text → Type 0
HeardFits none = Unit
HeardFits (some bytes) = length bytes < 1024

abbrev ReceivedFits : Option ℕ → Type 0
ReceivedFits none = Unit
ReceivedFits (some n) = n < 1024

abbrev pub Fits : Round → Type 0
Fits r = HeardFits r.heard × ReceivedFits r.received

abbrev Defined : Run Outcome → Type 0
Defined run = (o : Outcome) × (run ≡ done o)

send_turn-Defined :
    (heard : Option Text) (sent : Bool) (received : Option ℕ) (exits : Bool) (code : Last)
    → ReceivedFits received
    → Defined
        (send_turn (record { heard = heard; sent = sent; received = received; exits = exits }) code)
unfolding send_turn
send_turn-Defined heard false received exits code h = (_, refl)
send_turn-Defined heard true none exits code h = (_, refl)
send_turn-Defined heard true (some n) exits code h =
    let some_room : leb 1024 n ≡ false = ground arith in rw some_room (_, refl)

read_code-Defined :
    (last : Last) (r : Round) (text : Text)
    → ReceivedFits r.received
    → Defined (read_code last r text)
unfolding read_code
read_code-Defined last r text h = elim (Option-cases (parse_dorsal text)) [
  | inl bad ↦ rw (read_code, bad) (_, refl)
  | inr (code, parsed) ↦
      rw (read_code, parsed)
        (if_holds Defined (ltb_ℤ code.0 (pos 0)) (_, refl)
          (if_holds Defined (eqb_ℤ code.0 last.0 && eqb_ℤ code.1 last.1) (_, refl)
            (send_turn-Defined r.heard r.sent r.received r.exits code h)))
]

qr_round-Defined :
    (last : Last) (heard : Option Text) (sent : Bool) (received : Option ℕ) (exits : Bool)
    → let r : Round = record { heard = heard; sent = sent; received = received; exits = exits } in
      Fits r → Defined (qr_round last r)
unfolding qr_round
qr_round-Defined last none sent received exits h = (_, refl)
qr_round-Defined last (some bytes) sent received exits h =
    let r : Round = record {
      heard = some bytes;
      sent = sent;
      received = received;
      exits = exits;
    } in
    let some_room : leb 1024 (length bytes) ≡ false = ground arith in
    let line = first_line (c_string bytes) in
    rw some_room
      (if_holds Defined (leb (length line) 0) (_, refl) (read_code-Defined last r line h.1))

-- the loop is defined
pub qr_loop-Defined :
    (last : Last) (rounds : List Round)
    → All Fits rounds
    → (sent : List Text) × (on : Bool) × (qr_loop last rounds ≡ done (sent, on))
unfolding qr_loop
qr_loop-Defined last [] h = ([], true, refl)
qr_loop-Defined last (r ∷ rounds) h =
    let ((datagram, last', on), round) =
      qr_round-Defined last r.heard r.sent r.received r.exits h.0 in
    let (sent, runs, rest) = qr_loop-Defined last' rounds h.1 in
    elim (Bool-cases on) [
      | inl goes ↦ (add datagram sent, runs, rw round (rw goes (rw rest refl)))
      | inr ends ↦ (add datagram [], false, rw round (rw ends refl))
    ]
