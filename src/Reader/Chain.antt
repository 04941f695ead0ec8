-- ===== src/Reader/Chain.antt =====
-- From the bytes that the port delivers, through module_read of src/modules/generic.c and the thread of
-- src/serial_mgr.c, to the main loop of src/main.c.
use agility_contest_serial_c.Base.{
  ℕ, ◌≤◌, ◌≡◌, refl, true, false, Option, none, some, List, [], ◌∷◌, ◌++◌, Text, codes, strchr,
  length, map, pos, negsuc, fault, arith,
}
use agility_contest_serial_c.Relay.{sc_serial}
use agility_contest_serial_c.Generic.{ReadByte, byte, last_byte, Read, module_read}
use agility_contest_serial_c.Generic.Reads.{IsLine, module_read_lem}
use agility_contest_serial_c.Reader.{Round, reader_round, forward}

-- what the thread hears of a call of module_read
abbrev pub heard_of : Read → Option (ℕ × Text)
heard_of r = elim r.result [
  | pos n ↦ elim r.buffer [ none ↦ some (n, []) | some text ↦ some (n, text) ]
  | negsuc e ↦ none
]

-- a round that sends what was read and receives an answer of two bytes, "OK"
abbrev pub round_of : Read → Round
round_of r = record { heard = heard_of r; sent = true; received = some 2; exits = false }

-- the room that the thread has behind its name
abbrev pub serial_size : ℕ
serial_size = 1012

pub strchr-line : (s : Text) → IsLine s → strchr (s ++ codes "\n") b'\n' ≡ some (s, [])
unfolding strchr
strchr-line [] h = refl
strchr-line (c ∷ s) h = ground (arith, strchr-line s)

-- A line of 1011 to 1022 bytes without CR, LF and 0 is read by the generic module with a length for which
-- the thread of the serial manager writes its 0 outside the request.
pub round_of-overflow :
    (s : Text) (feed : List ReadByte)
    → IsLine s
    → 1011 ≤ length s
    → length s ≤ last_byte
    → (r : Read) × (module_read (map byte (s ++ codes "\r\n") ++ feed) serial_size ≡ some r)
      × (reader_round sc_serial (round_of r) ≡ fault)
unfolding reader_round forward
round_of-overflow s feed h long fits = (_, module_read_lem s feed serial_size h fits, ground arith)
