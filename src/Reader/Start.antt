-- ===== src/Reader/Start.antt =====
-- The threads of src/serial_mgr.c and src/net_mgr.c: the order in which a module is loaded and given back.
use agility_contest_serial_c.Base.{
  ◌≡◌, refl, true, false, Option, none, some, List, [], ◌∷◌, Text, done, ◌⊎◌, inl, inr, arith,
  if◌then◌else◌, Bool-cases, All,
}
use agility_contest_serial_c.Config.{Configuration}
use agility_contest_serial_c.Reader.Loop.{Fits, is_none_last, reader_loop-is_none_last}
use agility_contest_serial_c.Reader.{
  Round, Call, loads, inits, opens, closes, deinits, unloads, Host, Started, start, start_module,
  Ran, manager_thread, behind_loop, not_started,
}

-- what the thread holds of the module
pub data Stage : Type 0 where
  released : Stage
  loaded : Stage
  initialised : Stage
  opened : Stage

-- each call in its stage only
abbrev pub next_stage : Stage → Call → Option Stage
next_stage released loads = some loaded
next_stage loaded inits = some initialised
next_stage initialised opens = some opened
next_stage opened closes = some initialised
next_stage initialised deinits = some loaded
next_stage loaded unloads = some released
next_stage _ _ = none

abbrev pub stage_after : Stage → List Call → Option Stage
stage_after s [] = some s
stage_after s (c ∷ calls) = elim (next_stage s c) [ none ↦ none | some s' ↦ stage_after s' calls ]

abbrev StartedRight : Started → Type 0
StartedRight s =
    ((s.enters ≡ true) × (s.calls ≡ loads ∷ inits ∷ opens ∷ []))
    ⊎ ((s.enters ≡ false) × (stage_after released s.calls ≡ some released))

start-StartedRight :
    (lost : Configuration → Configuration) (host : Host) (c : Configuration)
    → StartedRight (start lost host c)
unfolding start start_module
start-StartedRight lost host c = ground arith

-- When what is read and what is received leaves room for the 0 behind it in every round, the thread is
-- defined, whichever of its calls fail; it loads, initialises and opens the module in this order, and
-- where it has ended it has closed, ended and unloaded in the opposite order what it had taken, and
-- nothing else.
pub manager_thread-stage :
    (self : Text) (lost : Configuration → Configuration) (host : Host) (c : Configuration)
    (rounds : List Round)
    → All (Fits self) rounds
    → (r : Ran) × (manager_thread self lost host c rounds ≡ done r)
      × (stage_after released r.calls ≡ some (if r.runs then opened else released))
unfolding manager_thread
manager_thread-stage self lost host c rounds h =
    let s = start lost host c in
    let (sent, loop) = reader_loop-is_none_last self rounds h in
    elim (start-StartedRight lost host c) [
      | inl (enters, calls) ↦ elim (Bool-cases (is_none_last rounds)) [
        | inl on ↦ (behind_loop s sent true, rw enters (rw (loop, on) refl), rw calls refl)
        | inr off ↦ (behind_loop s sent false, rw enters (rw (loop, off) refl), rw calls refl)
      ]
      | inr (out, calls) ↦ (not_started s, rw out refl, calls)
    ]
