-- ===== src/Qrcode.antt =====
-- src/qrcode_mgr.c: the reader of QR codes, whose thread sends the number of a dog to the main loop. The serial
-- port and the socket are parameters: what their calls return.
pub mod Codes
pub mod Leaves
pub mod Rounds
pub mod Thread
pub mod Turns
mod Tests
use agility_contest_serial_c.Base.{
  ℕ, Bool, true, false, ◌&&◌, ◌||◌, Option, none, some, List, [], ◌∷◌, ◌++◌, ◌==◌, leb,
  if◌then◌else◌, ℤ, pos, ltb_ℤ, eqb_ℤ, Text, codes, tolower, starts_with, strchr, isdigit, atoi,
  skip_space, print_int, map, drop, length, Run, done, fault, ◌>>=◌,
}
use agility_contest_serial_c.Dispatch.{c_string}

-- SC_QRCODE
abbrev pub sc_qrcode : Text
sc_qrcode = codes "qrcode_server"

-- a literal of the format of sscanf
unfoldable pub literal : Text → Text → Option Text
unfolding starts_with
literal p s = if starts_with p s then some (drop (length p) s) else none

-- what stands behind the digits at the front
unfoldable pub behind_digits : Text → Text
unfolding isdigit
behind_digits [] = []
behind_digits (c ∷ s) = let rest = behind_digits s in if isdigit c then rest else c ∷ s

abbrev starts_digit : Text → Bool
unfolding isdigit
starts_digit [] = false
starts_digit (c ∷ s) = isdigit c

-- %d of sscanf behind the white space: the number and what follows it
unfoldable pub scan_digits : Text → Option (ℤ × Text)
unfolding behind_digits atoi isdigit
scan_digits [] = none
scan_digits (c ∷ s) =
    if isdigit c
    then some (atoi (c ∷ s), behind_digits s)
    else if (c == b'-' || c == b'+') && starts_digit s
    then some (atoi (c ∷ s), behind_digits s)
    else none

unfoldable pub scan_int : Text → Option (ℤ × Text)
unfolding scan_digits skip_space
scan_int s = scan_digits (skip_space s)

-- the format of two numbers; what stands behind the second is not looked at
unfoldable pub parse_numbers : Text → Option (ℤ × ℤ)
unfolding scan_int literal
parse_numbers request = elim (literal (codes "[\"") request) [
  | none ↦ none
  | some r ↦ elim (scan_int r) [
    | none ↦ none
    | some (dorsal, r') ↦ elim (literal (codes "\",\"") r') [
      | none ↦ none
      | some r'' ↦ elim (scan_int r'') [ none ↦ none | some (dog, behind) ↦ some (dorsal, dog) ]
    ]
  ]
]

-- sscanf(request,"[\"%d\",\"%d\"]",dorsal,dogid)==2 on the request in lower case
unfoldable pub parse_dorsal : Text → Option (ℤ × ℤ)
unfolding parse_numbers tolower
parse_dorsal request = parse_numbers (map tolower request)

-- What the calls of one round return: sp_blocking_read the bytes, at least one, or an error; whether send
-- succeeds; recv the number of bytes, or an error; and whether the index of the slot is negative then.
pub record Round : Type 0 where
  pub heard : Option Text
  pub sent : Bool
  pub received : Option ℕ
  pub exits : Bool

-- the dorsal and the dog that were read last
abbrev pub Last : Type 0
Last = ℤ × ℤ

-- the datagram, what was read last, and whether the loop goes on
abbrev pub Outcome : Type 0
Outcome = Option Text × Last × Bool

unfoldable pub turn_request : ℤ → Text
unfolding print_int
turn_request dorsal = sc_qrcode ++ codes " TURN " ++ print_int dorsal ++ codes "\n"

unfoldable pub send_turn : Round → ℤ × ℤ → Run Outcome
unfolding turn_request
send_turn r (dorsal, dog) =
    if r.sent
    then elim r.received [
      | none ↦ done (some (turn_request dorsal), (dorsal, dog), false)
      | some n ↦
          if leb 1024 n
          then fault
          else done (some (turn_request dorsal), (dorsal, dog), if r.exits then false else true)
    ]
    else done (none, (dorsal, dog), false)

-- a code ends the loop when it cannot be read or its dorsal is negative
unfoldable pub read_code : Last → Round → Text → Run Outcome
unfolding parse_dorsal send_turn
read_code last r text = elim (parse_dorsal text) [
  | none ↦ done (none, last, false)
  | some (dorsal, dog) ↦
      if ltb_ℤ dorsal (pos 0)
      then done (none, last, false)
      else if eqb_ℤ dorsal last.0 && eqb_ℤ dog last.1
      then done (none, last, true)
      else send_turn r (dorsal, dog)
]

-- up to the first newline
unfoldable pub first_line : Text → Text
unfolding strchr
first_line s = elim (strchr s b'\n') [ none ↦ s | some (line, behind) ↦ line ]

unfoldable pub qr_round : Last → Round → Run Outcome
unfolding first_line c_string read_code
qr_round last r = elim r.heard [
  | none ↦ done (none, last, false)
  | some bytes ↦
      if leb 1024 (length bytes)
      then fault
      else let line = first_line (c_string bytes) in
        if leb (length line) 0 then done (none, last, true) else read_code last r line
]

abbrev pub add : Option Text → List Text → List Text
add none sent = sent
add (some datagram) sent = datagram ∷ sent

-- the datagrams, and whether the loop still runs behind the rounds
unfoldable pub qr_loop : Last → List Round → Run (List Text × Bool)
unfolding qr_round
qr_loop last [] = done ([], true)
qr_loop last (r ∷ rounds) = do
  (datagram, last', on) ← qr_round last r
  let rest = qr_loop last' rounds
  (later, runs) ← (if on then rest else done ([], false))
  done (add datagram later, runs)
