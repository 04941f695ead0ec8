-- ===== src/Sockets/Ports.antt =====
-- The ports of src/sc_sockets.c: the main loop listens where the threads send.
use agility_contest_serial_c.Base.{
  ℕ, ◌%◌, ◌^◌, ◌<◌, ◌≡◌, refl, Option, none, some, List, [], ◌∷◌, Text, codes, arith, Option-cases,
  inl, inr, print_nat, atoi-print, if◌then◌else◌, ◌==◌,
}
use agility_contest_serial_c.Sockets.{
  System, Call, opens, connects, binds, listens, swap16, connect_port, passive_port, connectsock,
  passivesock, connect_udp, passive_udp,
}

swap16_idem : (n : ℕ) → n < 65536 → swap16 (swap16 (n % 65536)) ≡ n
unfolding swap16
swap16_idem n h = omega arith

-- the ports of services have 16 bits
abbrev pub HasPorts : System → Type 0
HasPorts sys =
    (service transport : Text) (p : ℕ) → sys.getservbyname service transport ≡ some p → p < 65536

-- the port that is connected to, and the port that is bound
abbrev pub connected_port : List Call → Option ℕ
connected_port [] = none
connected_port (opens s ∷ calls) = connected_port calls
connected_port (connects s address port ∷ calls) = some port
connected_port (binds s port ∷ calls) = connected_port calls
connected_port (listens s qlen ∷ calls) = connected_port calls

abbrev pub bound_port : List Call → Option ℕ
bound_port [] = none
bound_port (opens s ∷ calls) = bound_port calls
bound_port (connects s address port ∷ calls) = bound_port calls
bound_port (binds s port ∷ calls) = some port
bound_port (listens s qlen ∷ calls) = bound_port calls

connect_port-passive_port :
    (sys sys' : System) (service transport : Text)
    → HasPorts sys
    → sys.getservbyname service transport ≡ sys'.getservbyname service transport
    → connect_port sys service transport ≡ passive_port sys' service transport
unfolding connect_port passive_port
connect_port-passive_port sys sys' service transport ports same =
    elim (Option-cases (sys.getservbyname service transport)) [
      | inl out ↦ rw (← same, passive_port) (rw (out, connect_port, passive_port) refl)
      | inr (p, found) ↦
          let back = swap16_idem p (ports service transport p found) in
          rw (← same, passive_port) (rw (found, connect_port, passive_port) (rw back refl))
    ]

connectsock-port :
    (sys : System) (host service transport : Text) {p : ℕ}
    → connected_port (connectsock sys host service transport).calls ≡ some p
    → connect_port sys service transport ≡ some p
unfolding connectsock
connectsock-port sys host service transport h = ground arith

passivesock-port :
    (sys : System) (service transport : Text) (qlen : ℕ) {p : ℕ}
    → bound_port (passivesock sys service transport qlen).calls ≡ some p
    → passive_port sys service transport ≡ some p
unfolding passivesock
passivesock-port sys service transport qlen h = ground arith

-- In two states of a system with the same services, the port that connectUDP asks for is the port that
-- passiveUDP binds for the same service, whatever else succeeds.
pub connect_udp-passive_udp :
    (sys sys' : System) (host service : Text) {p q : ℕ}
    → HasPorts sys
    → sys.getservbyname service (codes "udp") ≡ sys'.getservbyname service (codes "udp")
    → connected_port (connect_udp sys host service).calls ≡ some p
    → bound_port (passive_udp sys' service).calls ≡ some q
    → p ≡ q
unfolding connect_udp passive_udp
connect_udp-passive_udp sys sys' host service ports same c b =
    let connects_to = connectsock-port sys host service (codes "udp") c in
    let binds_to = passivesock-port sys' service (codes "udp") 0 b in
    let agree = connect_port-passive_port sys sys' service (codes "udp") ports same in
    cc (connects_to, binds_to, agree)

-- The number of a port that is no name of a service is taken modulo 2 ^ 16, and refused where that is 0.
pub passive_port-print_nat :
    (sys : System) (n : ℕ)
    → n < 2 ^ 31
    → sys.getservbyname (print_nat n) (codes "udp") ≡ none
    → passive_port sys (print_nat n) (codes "udp")
      ≡ (if n % 65536 == 0 then none else some (swap16 (n % 65536)))
unfolding passive_port swap16
passive_port-print_nat sys n small out =
    let number = atoi-print n small in rw (out, passive_port) (rw number (ground arith))
