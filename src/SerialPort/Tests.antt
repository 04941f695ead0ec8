-- ===== src/SerialPort/Tests.antt =====
-- The thread with a concrete port.
use agility_contest_serial_c.Base.{◌≡◌, true, some, [], ◌∷◌, codes, done, arith}
use agility_contest_serial_c.Relay.{sc_serial}
use agility_contest_serial_c.Reader.{Round, Host, Ran, manager_thread, without_port}
use agility_contest_serial_c.SerialPort.{Libserialport}
use agility_contest_serial_c.SerialPort.Thread.{with_module, LeavesPort, serial_thread-LeavesPort}
use agility_contest_serial_c.Samples.{config_0}

abbrev ports : Libserialport
ports = record { sp_get_port_by_name = λ name. some 7; sp_open = λ p mode. true }

abbrev host : Host
host = record {
  connect_udp = λ name port. true;
  dlopen = λ name. true;
  dlsym = λ name. true;
  module_init = λ c. (true, c);
  module_open = λ c. true;
}

abbrev line_round : Round
line_round = record {
  heard = some (5, codes "EXIT\n");
  sent = true;
  received = some 2;
  exits = true;
}

serial_thread-LeavesPort_example :
    (r : Ran) × (manager_thread sc_serial without_port
        (with_module ports host)
        config_0
        (line_round ∷ [])
      ≡ done r)
    × LeavesPort ports config_0 r.runs r.calls
serial_thread-LeavesPort_example =
    serial_thread-LeavesPort sc_serial without_port ports host config_0 (line_round ∷ [])
      ((omega arith, omega arith), tt)
