-- ===== src/Events/Dog.antt =====
-- src/ajax_json.c: the data of a dog that an event brings.
use agility_contest_serial_c.Base.{
  ◌≡◌, refl, some, ◌++◌, if◌then◌else◌, ℤ, Text, codes, str_eq, atoi, done, Bool-cases, inl, inr,
}
use agility_contest_serial_c.Config.{Configuration, Status}
use agility_contest_serial_c.Events.{
  Properties, value, number, number_or, not_present, event_call, event_type, bounded, msg_len,
}

-- the values of the dog that an event names: its five counters, and who it is
pub record Dog : Type 0 where
  pub flt : Text
  pub toc : Text
  pub reh : Text
  pub eli : Text
  pub npr : Text
  pub drs : Text
  pub dog : Text
  pub eqp : Text

-- what an event with `-1` for a counter leaves of it, and with a number
abbrev pub or_old : Text → ℤ → ℤ
or_old v old = if str_eq v (codes "-1") then old else atoi v

pub value-some : (get : Properties) (key v : Text) → get key ≡ some v → value get key ≡ done v
unfolding value
value-some get key v h = rw (h, value) refl

number-some : (get : Properties) (key v : Text) → get key ≡ some v → number get key ≡ done (atoi v)
unfolding number
number-some get key v h = rw (value-some get key v h) refl

number_or-some :
    (get : Properties) (key v : Text) (old : ℤ)
    → get key ≡ some v
    → number_or get key old ≡ done (or_old v old)
unfolding number_or
number_or-some get key v old h = rw (value-some get key v h) refl

not_present-some :
    (get : Properties) (flt npr : Text) (old : ℤ)
    → get (codes "Flt") ≡ some flt
    → get (codes "NPr") ≡ some npr
    → not_present get old ≡ done (if str_eq (codes "-1") flt then old else atoi npr)
unfolding not_present
not_present-some get flt npr old hf hn =
    rw (value-some get (codes "Flt") flt hf) (elim (Bool-cases (str_eq (codes "-1") flt)) [
      | inl stays ↦ rw stays refl
      | inr given ↦ rw given (number-some get (codes "NPr") npr hn)
    ])

-- the status behind the event that calls a dog
abbrev pub called : Status → Dog → Status
called s d = record s {
  dorsal = atoi d.drs;
  perro = atoi d.dog;
  equipo = atoi d.eqp;
  faults = or_old d.flt s.faults;
  touchs = or_old d.toc s.touchs;
  refusals = or_old d.reh s.refusals;
  eliminated = or_old d.eli s.eliminated;
  notpresent = if str_eq (codes "-1") d.flt then s.notpresent else atoi d.npr;
}

-- A `llamada` event with all its values becomes the command `turn` with the number of the dog, sets who
-- the dog is, and takes over each of faults, touches, refusals and elimination that is not `-1`; the
-- flag for a dog that is not present is taken over when the faults are not `-1`.
pub event_type-llamada :
    (c : Configuration) (get : Properties) (d : Dog) (numero : Text)
    → get (codes "Drs") ≡ some d.drs
    → get (codes "Dog") ≡ some d.dog
    → get (codes "Eqp") ≡ some d.eqp
    → get (codes "Flt") ≡ some d.flt
    → get (codes "Toc") ≡ some d.toc
    → get (codes "Reh") ≡ some d.reh
    → get (codes "Eli") ≡ some d.eli
    → get (codes "NPr") ≡ some d.npr
    → get (codes "Numero") ≡ some numero
    → event_type (codes "llamada") c get
      ≡ done (
        record c { status = called c.status d },
        bounded msg_len (codes "turn " ++ numero ++ codes "\n"),
      )
unfolding event_type event_call str_eq
event_type-llamada c get d numero drs dog eqp flt toc reh eli npr num =
    rw
      (
        number-some get (codes "Drs") d.drs drs,
        number-some get (codes "Dog") d.dog dog,
        number-some get (codes "Eqp") d.eqp eqp,
        number_or-some get (codes "Flt") d.flt c.status.faults flt,
        number_or-some get (codes "Toc") d.toc c.status.touchs toc,
        number_or-some get (codes "Reh") d.reh c.status.refusals reh,
        number_or-some get (codes "Eli") d.eli c.status.eliminated eli,
        not_present-some get d.flt d.npr c.status.notpresent flt npr,
      )
      (rw num refl)
