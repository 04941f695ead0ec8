-- ===== src/Sockets/Tests.antt =====
-- The sockets of a system without names of services.
use agility_contest_serial_c.Base.{
  ℕ, ◌≡◌, refl, true, none, some, codes, str_eq, atoi, strtol, wrap32, unsigned, skip_space,
  isspace, isdigit, signed_digits, digits_from,
}
use agility_contest_serial_c.Sockets.{
  System, swap16, connect_port, passive_port, host_address, connectsock, passivesock, connect_udp,
  passive_udp,
}
use agility_contest_serial_c.Sockets.Ports.{
  HasPorts, connected_port, bound_port, connect_udp-passive_udp,
}

abbrev local : System
local = record {
  getservbyname = λ service transport. none;
  gethostbyname = λ host. some (codes "127.0.0.1");
  inet_addr = λ host. none;
  getprotobyname = λ transport. some 17;
  socket = λ type proto. some 3;
  connect = λ s address port. true;
  bind = λ s port. true;
  listen = λ s qlen. true;
}

local-HasPorts : HasPorts local
local-HasPorts service transport p h = cc h

-- the port 8880 + 1 in network order
connects : connected_port (connect_udp local (codes "localhost") (codes "8881")).calls ≡ some 45346
unfolding connect_udp connectsock connect_port host_address str_eq swap16 atoi strtol wrap32
    unsigned skip_space isspace isdigit signed_digits digits_from
connects = refl

binds : bound_port (passive_udp local (codes "8881")).calls ≡ some 45346
unfolding passive_udp passivesock passive_port str_eq swap16 atoi strtol wrap32 unsigned skip_space
    isspace isdigit signed_digits digits_from
binds = refl

connect_udp-passive_udp_example : ◌≡◌ {A = ℕ} 45346 45346
connect_udp-passive_udp_example =
    connect_udp-passive_udp local local (codes "localhost") (codes "8881") local-HasPorts refl
      connects binds
