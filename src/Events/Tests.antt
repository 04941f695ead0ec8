-- ===== src/Events/Tests.antt =====
-- The theorems on events at concrete ones.
use agility_contest_serial_c.Base.{
  ◌≡◌, refl, List, [], ◌∷◌, none, some, if◌then◌else◌, Text, codes, str_eq, print_int, print_nat,
  print_from,
}
use agility_contest_serial_c.Config.{default_options}
use agility_contest_serial_c.Tools.{get_session_name}
use agility_contest_serial_c.Events.{Properties, ReadJson}
use agility_contest_serial_c.Events.Dog.{Dog}
use agility_contest_serial_c.Samples.{config_0}

-- an object with the properties of a list
abbrev object : List (Text × Text) → Properties
unfolding str_eq
object [] key = none
object ((k, v) ∷ ps) key = if str_eq k key then some v else object ps key

abbrev own_event : Properties
own_event =
    object
      ((codes "SessionName", codes "chrono:0:0:0:generic") ∷ (codes "TimeStamp", codes "7") ∷ [])

abbrev parser : ReadJson
parser s = some own_event

own_name :
    own_event (codes "SessionName")
    ≡ some (get_session_name config_0.status.session_id config_0.client_name)
unfolding get_session_name print_int print_nat print_from config_0 default_options str_eq
own_name = refl

own_stamp : own_event (codes "TimeStamp") ≡ some (codes "7")
unfolding str_eq
own_stamp = refl

abbrev dog : Dog
dog = record {
  flt = codes "-1";
  toc = codes "1";
  reh = codes "0";
  eli = codes "0";
  npr = codes "1";
  drs = codes "12";
  dog = codes "345";
  eqp = codes "6";
}

-- the event that calls the dog
abbrev call : Properties
call = object (
    (codes "Drs", codes "12")
    ∷ (codes "Dog", codes "345")
    ∷ (codes "Eqp", codes "6")
    ∷ (codes "Flt", codes "-1")
    ∷ (codes "Toc", codes "1")
    ∷ (codes "Reh", codes "0")
    ∷ (codes "Eli", codes "0")
    ∷ (codes "NPr", codes "1")
    ∷ (codes "Numero", codes "4")
    ∷ [])

call-Drs : call (codes "Drs") ≡ some (codes "12")
unfolding str_eq
call-Drs = refl

call-Dog : call (codes "Dog") ≡ some (codes "345")
unfolding str_eq
call-Dog = refl

call-Eqp : call (codes "Eqp") ≡ some (codes "6")
unfolding str_eq
call-Eqp = refl

call-Flt : call (codes "Flt") ≡ some (codes "-1")
unfolding str_eq
call-Flt = refl

call-Toc : call (codes "Toc") ≡ some (codes "1")
unfolding str_eq
call-Toc = refl

call-Reh : call (codes "Reh") ≡ some (codes "0")
unfolding str_eq
call-Reh = refl

call-Eli : call (codes "Eli") ≡ some (codes "0")
unfolding str_eq
call-Eli = refl

call-NPr : call (codes "NPr") ≡ some (codes "1")
unfolding str_eq
call-NPr = refl

call-Numero : call (codes "Numero") ≡ some (codes "4")
unfolding str_eq
call-Numero = refl
