-- ===== src/Qrcode/Tests.antt =====
-- The reader of QR codes at concrete codes.
use agility_contest_serial_c.Base.{
  ◌≡◌, ◌<◌, refl, [], ◌∷◌, none, some, true, false, pos, codes, strchr, starts_with, tolower,
  print_nat, print_from, map, length, done, arith,
}
use agility_contest_serial_c.Dispatch.{c_string}
use agility_contest_serial_c.Qrcode.{
  Round, qr_loop, first_line, parse_dorsal, parse_numbers, literal, turn_request,
}
use agility_contest_serial_c.Qrcode.Codes.{code_of}
use agility_contest_serial_c.Qrcode.Thread.{Host, Ran, manager_thread}
use agility_contest_serial_c.Qrcode.Leaves.{LeavesPort, manager_thread-LeavesPort}
use agility_contest_serial_c.Config.{Configuration}
use agility_contest_serial_c.Samples.{config_0}
use agility_contest_serial_c.Qrcode.Turns.{round_of, qr_loop-turns}

short : length (code_of 12 345) < 1023
unfolding code_of print_nat print_from
short = omega arith

qr_loop-turns_example :
    qr_loop (pos 0, pos 0) (map round_of ((12, 345) ∷ (12, 345) ∷ []))
    ≡ done (turn_request (pos 12) ∷ [], true)
qr_loop-turns_example =
    qr_loop-turns (pos 0, pos 0) ((12, 345) ∷ (12, 345) ∷ [])
      ((omega arith, omega arith, short), ((omega arith, omega arith, short), tt))

abbrev bad_round : Round
bad_round = record { heard = some (codes "dog"); sent = true; received = some 2; exits = false }

bad_line : first_line (c_string (codes "dog")) ≡ codes "dog"
unfolding first_line strchr c_string
bad_line = refl

unreadable : parse_dorsal (codes "dog") ≡ none
unfolding parse_dorsal parse_numbers literal starts_with tolower
unreadable = refl

abbrev reader : Host
reader = record {
  connect_udp = λ name port. true;
  sp = record { sp_get_port_by_name = λ name. some 7; sp_open = λ p mode. true };
  calloc = true;
}

-- with the port of its configuration
abbrev config_reader : Configuration
config_reader = record config_0 { qrcomm_port = codes "/dev/ttyS1" }

manager_thread-LeavesPort_example :
    (r : Ran) × (manager_thread reader config_reader (bad_round ∷ []) ≡ done r)
    × LeavesPort reader config_reader r
manager_thread-LeavesPort_example =
    manager_thread-LeavesPort reader config_reader (bad_round ∷ []) refl
      ((omega arith, omega arith), tt)
