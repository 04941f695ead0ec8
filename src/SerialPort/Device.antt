-- ===== src/SerialPort/Device.antt =====
-- What the calls of libserialport do to one port, as a state machine.
use agility_contest_serial_c.Base.{
  true, ◌==◌, ◌++◌, Option, none, some, List, [], ◌∷◌, if◌then◌else◌, ◌≡◌, refl, ap, sym, ◌∙◌,
  arith, Option-cases, append-nil, append_assoc, inl, inr,
}
use agility_contest_serial_c.Config.{Port}
use agility_contest_serial_c.SerialPort.{
  Mode, Setting, SpCall, gets, opens, sets, closes, frees, sets_all,
}

-- a port that is open keeps what was set, in order
pub data Device : Type 0 where
  no_port : Device
  held : Port → Device
  opened : Port → Mode → List Setting → Device

-- each call in its state only, and for the port that is held
unfoldable pub next_device : Device → SpCall → Option Device
next_device no_port (gets p) = some (held p)
next_device (held p) (opens q mode) = if p == q then some (opened p mode []) else none
next_device (opened p mode done_so_far) (sets (some q) s) =
    if p == q then some (opened p mode (done_so_far ++ s ∷ [])) else none
next_device (opened p mode done_so_far) (closes q) = if p == q then some (held p) else none
next_device (held p) (frees q) = if p == q then some no_port else none
next_device _ _ = none

unfoldable pub device_after : Device → List SpCall → Option Device
unfolding next_device
device_after d [] = some d
device_after d (c ∷ calls) = elim (next_device d c) [
  | none ↦ none
  | some d' ↦ device_after d' calls
]

pub same_port : (p : Port) → (p == p) ≡ true
same_port p = ground arith

-- calls one after the other
pub device_after-append :
    (d : Device) (calls later : List SpCall) {d' : Device}
    → device_after d calls ≡ some d'
    → device_after d (calls ++ later) ≡ device_after d' later
unfolding device_after
device_after-append d [] later h =
    ap (λ (o : Option Device). elim o [ none ↦ none | some e ↦ device_after e later ]) h
device_after-append d (c ∷ calls) later h = elim (Option-cases (next_device d c)) [
  | inl fails ↦ cc (fails, h)
  | inr (e, steps) ↦
      rw (device_after, steps)
        (device_after-append e calls later (sym (rw (device_after, steps) refl) ∙ h))
]

-- what is set on an open port is kept behind what was set before
pub device_after-sets_all :
    (p : Port) (mode : Mode) (before list : List Setting)
    → device_after (opened p mode before) (sets_all (some p) list)
      ≡ some (opened p mode (before ++ list))
unfolding device_after next_device
device_after-sets_all p mode before [] = rw append-nil refl
device_after-sets_all p mode before (s ∷ list) =
    rw (device_after, same_port p)
      (device_after-sets_all p mode (before ++ s ∷ []) list ∙ rw append_assoc refl)
