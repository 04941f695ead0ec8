-- ===== src/Sockets.antt =====
-- src/sc_sockets.c: the sockets between the main loop and the threads. The calls of the system are parameters.
pub mod Ports
mod Tests
use agility_contest_serial_c.Base.{
  ℕ, ◌+◌, ◌*◌, ◌/◌, ◌%◌, ◌^◌, Bool, Option, none, some, List, [], ◌∷◌, ◌++◌, ◌==◌, if◌then◌else◌,
  Text, codes, str_eq, atoi, unsigned,
}

-- SOCK_DGRAM and SOCK_STREAM
pub data SockType : Type 0 where
  datagram : SockType
  stream : SockType

-- What the system answers: the port of a service in network order, the address of a host by its name or in
-- dotted form, the number of a protocol, the descriptor of a new socket, and whether the other calls succeed.
pub record System : Type 0 where
  pub getservbyname : Text → Text → Option ℕ
  pub gethostbyname : Text → Option Text
  pub inet_addr : Text → Option Text
  pub getprotobyname : Text → Option ℕ
  pub socket : SockType → ℕ → Option ℕ
  pub connect : ℕ → Text → ℕ → Bool
  pub bind : ℕ → ℕ → Bool
  pub listen : ℕ → ℕ → Bool

-- the calls on a socket, with the address and the port in network order
pub data Call : Type 0 where
  opens : ℕ → Call
  connects : ℕ → Text → ℕ → Call
  binds : ℕ → ℕ → Call
  listens : ℕ → ℕ → Call

-- The result, `none` for -1, and the calls that were made. No socket is closed.
pub record Sock : Type 0 where
  pub result : Option ℕ
  pub calls : List Call

abbrev failed : List Call → Sock
failed calls = record { result = none; calls = calls }

-- htons and ntohs where the low byte comes first
unfoldable pub swap16 : ℕ → ℕ
swap16 n = n % 256 * 256 + n / 256 % 256

-- `htons((unsigned short)atoi(service))`, where 0 is an error
abbrev number_port : Text → Option ℕ
unfolding swap16 atoi unsigned
number_port service =
    let p = swap16 (unsigned (2 ^ 16) (atoi service)) in if p == 0 then none else some p

abbrev type_of : Text → SockType
unfolding str_eq
type_of transport = if str_eq transport (codes "udp") then datagram else stream

module _ (sys : System) where
  unfoldable pub connect_port : Text → Text → Option ℕ
  unfolding swap16 atoi unsigned
  connect_port service transport = elim (sys.getservbyname service transport) [
    | none ↦ number_port service
    | some p ↦ some p
  ]

  -- the same with the bytes swapped twice
  unfoldable pub passive_port : Text → Text → Option ℕ
  unfolding swap16 atoi unsigned
  passive_port service transport = elim (sys.getservbyname service transport) [
    | none ↦ number_port service
    | some p ↦ some (swap16 (swap16 (p % 2 ^ 16)))
  ]

  unfoldable pub host_address : Text → Option Text
  host_address host = elim (sys.gethostbyname host) [ none ↦ sys.inet_addr host | some a ↦ some a ]

  -- behind the socket
  abbrev connected : Text → ℕ → Option ℕ → Sock
  connected address port none = failed []
  connected address port (some s) =
      let calls = opens s ∷ connects s address port ∷ [] in
      if sys.connect s address port then record { result = some s; calls = calls } else failed calls

  unfoldable pub connectsock : Text → Text → Text → Sock
  unfolding connect_port host_address str_eq
  connectsock host service transport = elim (connect_port service transport) [
    | none ↦ failed []
    | some port ↦ elim (host_address host) [
      | none ↦ failed []
      | some address ↦ elim (sys.getprotobyname transport) [
        | none ↦ failed []
        | some proto ↦ connected address port (sys.socket (type_of transport) proto)
      ]
    ]
  ]

  abbrev listening : ℕ → ℕ → SockType → List Call → Sock
  listening s qlen datagram calls = record { result = some s; calls = calls }
  listening s qlen stream calls =
      let calls' = calls ++ listens s qlen ∷ [] in
      if sys.listen s qlen then record { result = some s; calls = calls' } else failed calls'

  abbrev bound : ℕ → ℕ → SockType → Option ℕ → Sock
  bound port qlen type none = failed []
  bound port qlen type (some s) =
      let calls = opens s ∷ binds s port ∷ [] in
      if sys.bind s port then listening s qlen type calls else failed calls

  unfoldable pub passivesock : Text → Text → ℕ → Sock
  unfolding passive_port str_eq
  passivesock service transport qlen = elim (passive_port service transport) [
    | none ↦ failed []
    | some port ↦ elim (sys.getprotobyname transport) [
      | none ↦ failed []
      | some proto ↦ bound port qlen (type_of transport) (sys.socket (type_of transport) proto)
    ]
  ]

  unfoldable pub connect_tcp : Text → Text → Sock
  unfolding connectsock
  connect_tcp host service = connectsock host service (codes "tcp")

  unfoldable pub connect_udp : Text → Text → Sock
  unfolding connectsock
  connect_udp host service = connectsock host service (codes "udp")

  unfoldable pub passive_udp : Text → Sock
  unfolding passivesock
  passive_udp service = passivesock service (codes "udp") 0

  unfoldable pub passive_tcp : Text → ℕ → Sock
  unfolding passivesock
  passive_tcp service qlen = passivesock service (codes "tcp") qlen
