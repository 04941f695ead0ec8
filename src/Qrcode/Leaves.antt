-- ===== src/Qrcode/Leaves.antt =====
-- What the thread of src/qrcode_mgr.c leaves of its port.
use agility_contest_serial_c.Base.{
  wrap32, Bool, true, false, Option, some, List, [], ◌∷◌, ◌++◌, pos, ◌≡◌, refl, ◌∙◌, Text, done,
  All, ◌⊎◌, inl, inr, Bool-cases, Option-cases, ◌+ℤ◌, if_holds, codes, strcase_eq,
}
use agility_contest_serial_c.Config.{Configuration, Port}
use agility_contest_serial_c.Qrcode.{Round}
use agility_contest_serial_c.Qrcode.Rounds.{Fits, qr_loop-Defined}
use agility_contest_serial_c.SerialPort.{SpCall, gets, opens, closes, read_only, sets_all, settings}
use agility_contest_serial_c.SerialPort.Device.{
  no_port, held, opened, device_after, next_device, same_port, device_after-append,
  device_after-sets_all,
}
use agility_contest_serial_c.Qrcode.Thread.{
  Host, Begun, begin, judge_port, judge_open, Ran, manager_thread, behind_loop, not_begun,
  qrcode_mgr_exit,
}

abbrev found_port : Host → Configuration → Option Port
found_port host c = host.sp.sp_get_port_by_name (some c.qrcomm_port)

abbrev opening : Port → List SpCall
opening p = gets p ∷ opens p read_only ∷ sets_all (some p) (settings (pos 115200))

-- what the start leaves
abbrev Begins : Host → Configuration → Begun → Type 0
Begins host c s =
    ((s.enters ≡ false) × (s.calls ≡ []))
    ⊎ ((p : Port) × (found_port host c ≡ some p)
        × (((s.enters ≡ false) × (s.calls ≡ gets p ∷ []))
            ⊎ ((s.enters ≡ true) × (s.calls ≡ opening p) × (s.config.qrcode_port ≡ some p))))

begin-Begins : (host : Host) (c : Configuration) → host.calloc ≡ true → Begins host c (begin host c)
unfolding begin judge_port judge_open
begin-Begins host c room =
    if_holds (Begins host c)
      (host.connect_udp (codes "localhost") (wrap32 (c.local_port +ℤ c.ring)))
      (if_holds (Begins host c) (strcase_eq c.qrcomm_port (codes "none")) (inl (refl, refl))
        (elim (Option-cases (found_port host c)) [
          | inl missing ↦ inl (rw (judge_port, missing) refl, rw (judge_port, missing) refl)
          | inr (p, found) ↦ elim (Bool-cases (host.sp.sp_open p read_only)) [
            | inl ready ↦ inr (
              p,
              found,
              inr (
                rw (judge_port, found, judge_open, ready) room,
                rw (judge_port, found, judge_open, ready) refl,
                rw (judge_port, found, judge_open, ready) refl,
              ),
            )
            | inr busy ↦ inr (
              p,
              found,
              inl (
                rw (judge_port, found, judge_open, busy) refl,
                rw (judge_port, found, judge_open, busy) refl,
              ),
            )
          ]
        ]))
      (inl (refl, refl))

device_after-opening :
    (p : Port)
    → device_after no_port (opening p) ≡ some (opened p read_only (settings (pos 115200)))
unfolding device_after next_device
device_after-opening p =
    rw (device_after, same_port p) (device_after-sets_all p read_only [] (settings (pos 115200)))

device_after-closing :
    (p : Port) → device_after no_port (opening p ++ closes p ∷ []) ≡ some (held p)
unfolding device_after next_device
device_after-closing p =
    device_after-append no_port (opening p) (closes p ∷ []) (device_after-opening p)
    ∙ rw (device_after, same_port p) refl

-- The port that the configuration names is open for reading with 115200 bauds when the thread runs; when it has
-- ended, no port was found or the one that was found is not open.
abbrev pub LeavesPort : Host → Configuration → Ran → Type 0
LeavesPort host c r =
    ((r.runs ≡ false) × (device_after no_port r.calls ≡ some no_port))
    ⊎ ((p : Port) × (found_port host c ≡ some p)
        × (((r.runs ≡ false) × (device_after no_port r.calls ≡ some (held p)))
            ⊎ ((r.runs ≡ true)
                × (device_after no_port r.calls
                    ≡ some (opened p read_only (settings (pos 115200)))))))

behind_loop-LeavesPort :
    (host : Host) (c : Configuration) (s : Begun) (p : Port) (sent : List Text) (on : Bool)
    → found_port host c ≡ some p
    → s.calls ≡ opening p
    → s.config.qrcode_port ≡ some p
    → LeavesPort host c (behind_loop s sent on)
unfolding behind_loop qrcode_mgr_exit
behind_loop-LeavesPort host c s p sent true found calls port =
    inr (p, found, inr (refl, rw calls (device_after-opening p)))
behind_loop-LeavesPort host c s p sent false found calls port =
    inr (p, found, inl (refl, rw (calls, qrcode_mgr_exit, port) (device_after-closing p)))

-- When what is read and what is received leaves room for the 0 behind it in every round, and both buffers can be
-- allocated, the thread of the reader is defined, whatever else fails. While it runs, the port of the configuration
-- is open for reading with 115200 bauds, 8 bits, no flow control, no parity, 1 stop bit and RTS; when it has ended,
-- no port is open, but one that was found is not freed.
pub manager_thread-LeavesPort :
    (host : Host) (c : Configuration) (rounds : List Round)
    → host.calloc ≡ true
    → All Fits rounds
    → (r : Ran) × (manager_thread host c rounds ≡ done r) × LeavesPort host c r
unfolding manager_thread device_after next_device
manager_thread-LeavesPort host c rounds room h =
    let s = begin host c in
    let (sent, on, loop) = qr_loop-Defined (pos 0, pos 0) rounds h in
    elim (begin-Begins host c room) [
      | inl (out, none_taken) ↦ (not_begun s, rw out refl, inl (refl, rw none_taken refl))
      | inr (p, found, inl (out, taken)) ↦
          (not_begun s, rw out refl, inr (p, found, inl (refl, rw taken refl)))
      | inr (p, found, inr (enters, taken, port)) ↦ (
        behind_loop s sent on,
        rw enters (rw loop refl),
        behind_loop-LeavesPort host c s p sent on found taken port,
      )
    ]
