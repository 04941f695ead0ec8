-- ===== src/SerialPort/Silent.antt =====
-- The text that the module keeps about its errors.
use agility_contest_serial_c.Base.{
  ◌≡◌, refl, Bool, true, false, Option, none, some, List, [], Option-cases, inl, inr, ◌∷◌, Text,
}
use agility_contest_serial_c.Config.{Configuration, Port}
use agility_contest_serial_c.Reader.{Call, loads, inits, opens, closes, deinits, unloads}
use agility_contest_serial_c.SerialPort.{
  Libserialport, Module, write_error, judge_port, judge_open, module_init, module_open,
  module_close, module_end, module_error,
}
use agility_contest_serial_c.SerialPort.Thread.{module_step, module_after}

write_error-silent :
    (message : Text) (m : Module) → module_error m ≡ [] → module_error (write_error message m) ≡ []
unfolding write_error
write_error-silent message m h = rw h refl

judge_port-silent :
    (port : Option Port) (m : Module)
    → module_error m ≡ []
    → module_error (judge_port port m).1 ≡ []
unfolding judge_port
judge_port-silent none m h = write_error-silent _ m h
judge_port-silent (some p) m h = h

judge_open-silent :
    (ok : Bool) (p : Port) (m : Module)
    → module_error m ≡ []
    → module_error (judge_open ok p m).1 ≡ []
unfolding judge_open
judge_open-silent true p m h = h
judge_open-silent false p m h = write_error-silent _ m h

module_open-silent :
    (sp : Libserialport) (m : Module) → module_error m ≡ [] → module_error (module_open sp m).1 ≡ []
unfolding module_open
module_open-silent sp m h = elim (Option-cases m.config.serial_port) [
  | inl missing ↦ rw (module_open, missing) h
  | inr (p, there) ↦ rw (module_open, there) (judge_open-silent _ p m h)
]

module_end-silent : (m : Module) → module_error m ≡ [] → module_error (module_end m) ≡ []
unfolding module_end
module_end-silent m h = elim (Option-cases m.config.serial_port) [
  | inl missing ↦ rw (module_end, missing) h
  | inr (p, there) ↦ rw (module_end, there) h
]

module_close-silent : (m : Module) → module_error m ≡ [] → module_error (module_close m) ≡ []
unfolding module_close
module_close-silent m h = elim (Option-cases m.config.serial_port) [
  | inl missing ↦ rw (module_close, missing) h
  | inr (p, there) ↦ rw (module_close, there) h
]

module_step-silent :
    (sp : Libserialport) (c : Configuration) (call : Call) (m : Module)
    → module_error m ≡ []
    → module_error (module_step sp c call m) ≡ []
unfolding module_init
module_step-silent sp c loads m h = refl
module_step-silent sp c inits m h = judge_port-silent _ _ h
module_step-silent sp c opens m h = module_open-silent sp m h
module_step-silent sp c closes m h = module_close-silent m h
module_step-silent sp c deinits m h = module_end-silent m h
module_step-silent sp c unloads m h = h

-- Behind any calls of the module, in any order and also where they fail, module_error gives the empty text.
pub module_after-silent :
    (sp : Libserialport) (c : Configuration) (calls : List Call) (m : Module)
    → module_error m ≡ []
    → module_error (module_after sp c calls m) ≡ []
module_after-silent sp c [] m h = h
module_after-silent sp c (call ∷ calls) m h =
    module_after-silent sp c calls (module_step sp c call m) (module_step-silent sp c call m h)
