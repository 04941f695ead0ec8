-- ===== src/Reader/Tests.antt =====
-- The threads that read a module, at concrete rounds.
use agility_contest_serial_c.Base.{
  ◌≡◌, refl, true, false, none, some, List, [], ◌∷◌, ◌++◌, Text, codes, done, fault, arith, map,
  if◌then◌else◌, strchr, ℕ, zero, suc, length,
}
use agility_contest_serial_c.Relay.{sc_serial}
use agility_contest_serial_c.Generic.{byte, Read, module_read}
use agility_contest_serial_c.Generic.Reads.{IsLine}
use agility_contest_serial_c.Reader.{
  Round, Host, Ran, manager_thread, reader_loop, reader_round, without_port,
}
use agility_contest_serial_c.Reader.Loop.{reader_loop-is_none_last, reader_loop-requests}
use agility_contest_serial_c.Reader.Start.{stage_after, released, opened, manager_thread-stage}
use agility_contest_serial_c.Reader.Chain.{round_of, serial_size, round_of-overflow}
use agility_contest_serial_c.Samples.{config_0}

-- a line, an error, nothing, and a line that is answered when the thread is to end
abbrev line_round : Round
line_round = record {
  heard = some (6, codes "STOP 7");
  sent = true;
  received = some 2;
  exits = false;
}

abbrev error_round : Round
error_round = record { heard = none; sent = true; received = none; exits = true }

abbrev silent_round : Round
silent_round = record { heard = some (0, []); sent = true; received = none; exits = true }

abbrev last_round : Round
last_round = record {
  heard = some (5, codes "EXIT\n");
  sent = true;
  received = some 2;
  exits = true;
}

reader_loop-is_none_last_example :
    (sent : List Text) × (reader_loop sc_serial (line_round ∷ error_round ∷ silent_round ∷ [])
      ≡ done (sent, true))
unfolding strchr
reader_loop-is_none_last_example =
    reader_loop-is_none_last sc_serial (line_round ∷ error_round ∷ silent_round ∷ [])
      ((omega arith, omega arith), ((tt, tt), ((omega arith, tt), tt)))

reader_loop-requests_example :
    reader_loop sc_serial (line_round ∷ silent_round ∷ [])
    ≡ done (codes "comm_server STOP 7" ∷ [], true)
unfolding strchr
reader_loop-requests_example =
    reader_loop-requests sc_serial (line_round ∷ silent_round ∷ [])
      (((omega arith, omega arith), refl, refl), (((omega arith, tt), refl, refl), tt))

abbrev host : Host
host = record {
  connect_udp = λ name port. true;
  dlopen = λ name. true;
  dlsym = λ name. true;
  module_init = λ c. (true, c);
  module_open = λ c. true;
}

manager_thread-stage_example :
    (r : Ran) × (manager_thread sc_serial without_port host config_0 (line_round ∷ last_round ∷ [])
      ≡ done r)
    × (stage_after released r.calls ≡ some (if r.runs then opened else released))
manager_thread-stage_example =
    manager_thread-stage sc_serial without_port host config_0 (line_round ∷ last_round ∷ [])
      ((omega arith, omega arith), ((omega arith, omega arith), tt))

-- the same letter again and again
abbrev letters : ℕ → Text
letters zero = []
letters (suc n) = b'x' ∷ letters n

length-letters : (n : ℕ) → length (letters n) ≡ n
length-letters zero = refl
length-letters (suc n) = omega (arith, length-letters n)

letters-IsLine : (n : ℕ) → IsLine (letters n)
letters-IsLine zero = refl
letters-IsLine (suc n) = letters-IsLine n

round_of-overflow_example :
    (r : Read) × (module_read (map byte (letters 1015 ++ codes "\r\n") ++ []) serial_size ≡ some r)
    × (reader_round sc_serial (round_of r) ≡ fault)
round_of-overflow_example =
    round_of-overflow (letters 1015) [] (letters-IsLine 1015) (omega (arith, length-letters 1015))
      (omega (arith, length-letters 1015))
