-- ===== src/SerialPort/Thread.antt =====
-- The module in the thread of src/serial_mgr.c or src/net_mgr.c: what the thread leaves of the port.
use agility_contest_serial_c.Base.{
  wrap32, Bool, true, false, Option, some, List, [], ◌∷◌, ◌++◌, ◌≡◌, refl, ap, ◌∙◌, Option-cases,
  if_holds, Bool-cases, ◌⊎◌, inl, inr, All, Text, done, codes, ◌+ℤ◌,
}
use agility_contest_serial_c.Config.{Configuration, Port}
use agility_contest_serial_c.Reader.{
  Round, Call, all_found, symbols, loads, inits, opens, closes, deinits, unloads, Host, Started,
  start, start_module, Ran, manager_thread, behind_loop, not_started,
}
use agility_contest_serial_c.Reader.Loop.{Fits, is_none_last, reader_loop-is_none_last}
use agility_contest_serial_c.SerialPort
use agility_contest_serial_c.SerialPort.{
  frees, Libserialport, Module, read_write, gets, settings, with_port, judge_port, judge_open,
  module_init, module_open, module_close, module_end,
}
use agility_contest_serial_c.SerialPort.Device.{
  Device, no_port, held, opened, device_after, next_device, same_port, device_after-append,
  device_after-sets_all,
}

-- a module that was loaded: error_str is static
abbrev pub fresh : Configuration → Module
fresh c = record { error_str = []; config = c; calls = [] }

-- what the thread calls
abbrev pub with_module : Libserialport → Host → Host
with_module sp host = record host {
  module_init = λ c. ((module_init sp c (fresh c)).0, (module_init sp c (fresh c)).1.config);
  module_open = λ c. (module_open sp (fresh c)).0;
}

-- the module behind a call of the thread; `loads` clears it
abbrev pub module_step : Libserialport → Configuration → Call → Module → Module
module_step sp c loads m = fresh c
module_step sp c inits m = (module_init sp c m).1
module_step sp c opens m = (module_open sp m).1
module_step sp c closes m = module_close m
module_step sp c deinits m = module_end m
module_step sp c unloads m = m

abbrev pub module_after : Libserialport → Configuration → List Call → Module → Module
module_after sp c [] m = m
module_after sp c (call ∷ calls) m = module_after sp c calls (module_step sp c call m)

-- the port, behind all calls of the thread
abbrev pub device_left : Libserialport → Configuration → List Call → Option Device
device_left sp c calls = device_after no_port (module_after sp c calls (fresh c)).calls

-- the thread has ended without a port, or the port that was named is open with the rate of the configuration
abbrev pub LeavesPort : Libserialport → Configuration → Bool → List Call → Type 0
LeavesPort sp c runs calls =
    ((runs ≡ false) × (device_left sp c calls ≡ some no_port))
    ⊎ ((runs ≡ true)
        × (p : Port) × (sp.sp_get_port_by_name c.comm_port ≡ some p)
        × (sp.sp_open p read_write ≡ true)
        × (device_left sp c calls ≡ some (opened p read_write (settings c.baud_rate))))

abbrev with_found : Configuration → Port → Module
with_found c p = record { error_str = []; config = with_port (some p) c; calls = gets p ∷ [] }

abbrev with_opened : Configuration → Port → Module
with_opened c p = (judge_open true p (with_found c p)).1

module _ (sp : Libserialport) (c : Configuration) (p : Port)
    (found : sp.sp_get_port_by_name c.comm_port ≡ some p) where
  module_init-found : module_init sp c (fresh c) ≡ (true, with_found c p)
  unfolding module_init
  module_init-found = ap (λ o. judge_port o (record (fresh c) { config = with_port o c })) found

  -- the calls behind module_init
  behind_init :
      (calls : List Call)
      → device_left sp c (loads ∷ inits ∷ calls)
        ≡ device_after no_port (module_after sp c calls (with_found c p)).calls
  behind_init calls =
      ap (λ (r : Bool × Module). device_after no_port (module_after sp c calls r.1).calls)
        module_init-found

  device_left-fails : device_left sp c (loads ∷ inits ∷ deinits ∷ unloads ∷ []) ≡ some no_port
  unfolding module_end device_after next_device
  device_left-fails = behind_init (deinits ∷ unloads ∷ []) ∙ rw (device_after, same_port p) refl

  module _ (ready : sp.sp_open p read_write ≡ true) where
    -- the calls behind module_open
    behind_open :
        (calls : List Call)
        → device_left sp c (loads ∷ inits ∷ opens ∷ calls)
          ≡ device_after no_port (module_after sp c calls (with_opened c p)).calls
    unfolding module_open
    behind_open calls =
        behind_init (opens ∷ calls)
        ∙ ap
            (λ (b : Bool).
              device_after no_port
                (module_after sp c calls (judge_open b p (with_found c p)).1).calls)
            ready

    device_after-opened :
        device_after no_port (with_opened c p).calls
        ≡ some (opened p read_write (settings c.baud_rate))
    unfolding judge_open device_after next_device
    device_after-opened =
        rw (device_after, same_port p)
          (device_after-sets_all p read_write [] (settings c.baud_rate))

    device_left-opens :
        device_left sp c (loads ∷ inits ∷ opens ∷ [])
        ≡ some (opened p read_write (settings c.baud_rate))
    device_left-opens = behind_open [] ∙ device_after-opened

    -- behind the loop
    device_left-closes :
        device_left sp c (loads ∷ inits ∷ opens ∷ closes ∷ deinits ∷ unloads ∷ []) ≡ some no_port
    unfolding module_close module_end device_after next_device judge_open
    device_left-closes =
        let made = (with_opened c p).calls in
        let closed : device_after no_port (made ++ SerialPort.closes p ∷ []) ≡ some (held p) =
          device_after-append no_port made (SerialPort.closes p ∷ []) device_after-opened
          ∙ rw (device_after, same_port p) refl in
        behind_open (closes ∷ deinits ∷ unloads ∷ [])
        ∙ device_after-append no_port (made ++ SerialPort.closes p ∷ []) (frees p ∷ []) closed
        ∙ rw (device_after, same_port p) refl

-- what the start leaves
abbrev Leaves : Libserialport → Configuration → Started → Type 0
Leaves sp c s =
    ((s.enters ≡ false) × (device_left sp c s.calls ≡ some no_port))
    ⊎ ((s.enters ≡ true)
        × (s.calls ≡ loads ∷ inits ∷ opens ∷ [])
        × (p : Port) × (sp.sp_get_port_by_name c.comm_port ≡ some p)
        × (sp.sp_open p read_write ≡ true))

module _ (sp : Libserialport) (c : Configuration) (s : Started) where
  ended-Leaves :
      (calls : List Call)
      → device_left sp c calls ≡ some no_port
      → (s.enters ≡ false) × (s.calls ≡ calls)
      → Leaves sp c s
  ended-Leaves calls left (out, same) = inl (out, rw same left)

module _ (lost : Configuration → Configuration) (sp : Libserialport) (host : Host)
    (c : Configuration) where
  abbrev begun : Started
  begun = start_module lost (with_module sp host) c

  start_module-Leaves : Leaves sp c begun
  unfolding start_module module_init module_open device_after
  start_module-Leaves = elim (Option-cases (sp.sp_get_port_by_name c.comm_port)) [
    | inl missing ↦
        ended-Leaves sp c begun (loads ∷ unloads ∷ []) refl
          (rw (start_module, missing) refl, rw (start_module, missing) refl)
    | inr (p, found) ↦ elim (Bool-cases (sp.sp_open p read_write)) [
      | inl ready ↦ inr (
        rw (start_module, found, ready) refl,
        rw (start_module, found, ready) refl,
        p,
        found,
        ready,
      )
      | inr busy ↦
          ended-Leaves sp c begun (loads ∷ inits ∷ deinits ∷ unloads ∷ [])
            (device_left-fails sp c p found)
            (rw (start_module, found, busy) refl, rw (start_module, found, busy) refl)
    ]
  ]

  -- whichever of the calls in front of the loop fail
  start-Leaves : Leaves sp c (start lost (with_module sp host) c)
  unfolding start device_after
  start-Leaves =
      if_holds (Leaves sp c)
        (host.connect_udp (codes "localhost") (wrap32 (c.local_port +ℤ c.ring)))
        (if_holds (Leaves sp c) (host.dlopen c.driver)
          (if_holds (Leaves sp c) (all_found host.dlsym symbols) start_module-Leaves
            (inl (refl, refl)))
          (inl (refl, refl)))
        (inl (refl, refl))

-- When what is read and what is received leaves room for the 0 behind it in every round, the thread with this module
-- is defined, whichever of its calls fail. A thread that has ended has given back the port that it had taken, each
-- call in its state only; one that runs has the port of the configuration open, with its rate, 8 bits, no flow
-- control, no parity, 1 stop bit and RTS, in this order.
pub serial_thread-LeavesPort :
    (self : Text) (lost : Configuration → Configuration) (sp : Libserialport) (host : Host)
    (c : Configuration) (rounds : List Round)
    → All (Fits self) rounds
    → (r : Ran) × (manager_thread self lost (with_module sp host) c rounds ≡ done r)
      × LeavesPort sp c r.runs r.calls
unfolding manager_thread
serial_thread-LeavesPort self lost sp host c rounds h =
    let s = start lost (with_module sp host) c in
    let (sent, loop) = reader_loop-is_none_last self rounds h in
    elim (start-Leaves lost sp host c) [
      | inl (out, left) ↦ (not_started s, rw out refl, inl (refl, left))
      | inr (enters, calls, p, found, ready) ↦ elim (Bool-cases (is_none_last rounds)) [
        | inl on ↦ (
          behind_loop s sent true,
          rw enters (rw (loop, on) refl),
          inr (refl, p, found, ready, rw calls (device_left-opens sp c p found ready)),
        )
        | inr off ↦ (
          behind_loop s sent false,
          rw enters (rw (loop, off) refl),
          inl (refl, rw calls (device_left-closes sp c p found ready)),
        )
      ]
    ]
