-- ===== src/Qrcode/Turns.antt =====
-- The thread of src/qrcode_mgr.c: which codes it sends to the main loop, and which end it.
use agility_contest_serial_c.Base.{
  ℕ, zero, suc, ◌+◌, ◌/◌, ◌%◌, ◌^◌, ◌<◌, ◌≡◌, ◌≢◌, refl, true, false, ◌&&◌, none, some, List, [],
  ◌∷◌, ◌++◌, leb, if◌then◌else◌, pos, eqb_ℤ, Text, codes, print_nat, print_from, map, length,
  length-append, All, done, Bool-cases, inl, inr, arith,
}
use agility_contest_serial_c.Dispatch.{c_string}
use agility_contest_serial_c.Generic.Reads.{IsLine, c_string-line}
use agility_contest_serial_c.Dispatch.Datagrams.{IsLine-append}
use agility_contest_serial_c.Reader.Chain.{strchr-line}
use agility_contest_serial_c.Qrcode.{
  Round, Last, turn_request, parse_dorsal, send_turn, read_code, first_line, qr_round, qr_loop,
}
use agility_contest_serial_c.Qrcode.Codes.{code_of, parse_dorsal-code_of}

print_from-IsLine : (f n : ℕ) → IsLine (print_from f n)
unfolding print_from
print_from-IsLine zero n = refl
print_from-IsLine (suc f) n =
    let digit : IsLine ((48 + n % 10) ∷ []) = ground arith in
    let both =
      IsLine-append (print_from f (n / 10)) ((48 + n % 10) ∷ []) (print_from-IsLine f (n / 10))
        digit in
    ground (arith, both)

print_nat-IsLine : (n : ℕ) → IsLine (print_nat n)
unfolding print_nat
print_nat-IsLine n = print_from-IsLine (suc n) n

code_of-IsLine : (dorsal dog : ℕ) → IsLine (code_of dorsal dog)
unfolding code_of
code_of-IsLine dorsal dog =
    let behind = IsLine-append (print_nat dog) (codes "\"]") (print_nat-IsLine dog) refl in
    let middle = IsLine-append (codes "\",\"") (print_nat dog ++ codes "\"]") refl behind in
    let front =
      IsLine-append (print_nat dorsal) (codes "\",\"" ++ (print_nat dog ++ codes "\"]"))
        (print_nat-IsLine dorsal) middle in
    IsLine-append (codes "[\"")
      (print_nat dorsal ++ (codes "\",\"" ++ (print_nat dog ++ codes "\"]"))) refl front

length-code_of : (dorsal dog : ℕ) → 0 < length (code_of dorsal dog)
unfolding code_of
length-code_of dorsal dog = omega arith

-- the numbers of a code that an `int` holds, and a code that fits into the buffer with its newline
abbrev pub IsCode : ℕ × ℕ → Type 0
IsCode (dorsal, dog) = (dorsal < 2 ^ 31) × (dog < 2 ^ 31) × (length (code_of dorsal dog) < 1023)

-- a code that is read as a line, sent and answered
abbrev pub round_of : ℕ × ℕ → Round
round_of (dorsal, dog) = record {
  heard = some (code_of dorsal dog ++ codes "\n");
  sent = true;
  received = some 2;
  exits = false;
}

-- a TURN for every code that differs from the one before
abbrev pub turns : Last → List (ℕ × ℕ) → List Text
turns last [] = []
turns last ((dorsal, dog) ∷ cs) =
    if eqb_ℤ (pos dorsal) last.0 && eqb_ℤ (pos dog) last.1
    then turns last cs
    else turn_request (pos dorsal) ∷ turns (pos dorsal, pos dog) cs

length-some : (s : Text) → s ≢ [] → leb (length s) 0 ≡ false
length-some [] ne = absurd (ne refl)
length-some (c ∷ s) ne = ground arith

first_line-code_of :
    (dorsal dog : ℕ) → first_line (code_of dorsal dog ++ codes "\n") ≡ code_of dorsal dog
unfolding first_line
first_line-code_of dorsal dog =
    rw (strchr-line (code_of dorsal dog) (code_of-IsLine dorsal dog), first_line) refl

qr_round-code :
    (last : Last) (dorsal dog : ℕ)
    → IsCode (dorsal, dog)
    → qr_round last (round_of (dorsal, dog))
      ≡ done (
          if eqb_ℤ (pos dorsal) last.0 && eqb_ℤ (pos dog) last.1
          then (none, last, true)
          else (some (turn_request (pos dorsal)), (pos dorsal, pos dog), true))
unfolding qr_round read_code send_turn
qr_round-code last dorsal dog (small, small', short) =
    let code = code_of dorsal dog in
    let line = code_of-IsLine dorsal dog in
    let fits : leb 1024 (length (code ++ codes "\n")) ≡ false =
      ground (arith, short, length-append code (codes "\n")) in
    let some_text : leb (length code) 0 ≡ false = ground (arith, length-code_of dorsal dog) in
    rw fits (
      rw (c_string-line code line) (
        rw (first_line-code_of dorsal dog) (
          rw some_text
            (rw (parse_dorsal-code_of dorsal dog small small', read_code) (ground arith)))))

-- From a reader that delivers codes as lines, each of whose requests is sent and answered, the thread sends a
-- TURN with the dorsal for every code that differs from the one read before it, in order, and goes on.
pub qr_loop-turns :
    (last : Last) (cs : List (ℕ × ℕ))
    → All IsCode cs
    → qr_loop last (map round_of cs) ≡ done (turns last cs, true)
unfolding qr_loop
qr_loop-turns last [] h = refl
qr_loop-turns last ((dorsal, dog) ∷ cs) h =
    elim (Bool-cases (eqb_ℤ (pos dorsal) last.0 && eqb_ℤ (pos dog) last.1)) [
      | inl same ↦
          rw (qr_round-code last dorsal dog h.0) (rw same (rw (qr_loop-turns last cs h.1) refl))
      | inr other ↦
          rw (qr_round-code last dorsal dog h.0)
            (rw other (rw (qr_loop-turns (pos dorsal, pos dog) cs h.1) refl))
    ]

-- A line that cannot be read as a code ends the thread: whatever the reader delivers behind it, nothing is sent.
pub qr_loop-unreadable :
    (last : Last) (r : Round) (rounds : List Round) (bytes : Text)
    → r.heard ≡ some bytes
    → length bytes < 1024
    → first_line (c_string bytes) ≢ []
    → parse_dorsal (first_line (c_string bytes)) ≡ none
    → qr_loop last (r ∷ rounds) ≡ done ([], false)
unfolding qr_loop qr_round read_code
qr_loop-unreadable last r rounds bytes heard short ne bad =
    let fits : leb 1024 (length bytes) ≡ false = ground (arith, short) in
    let some_text : leb (length (first_line (c_string bytes))) 0 ≡ false =
      length-some (first_line (c_string bytes)) ne in
    rw heard (rw fits (rw some_text (rw (bad, read_code) refl)))
