-- ===== src/Digican/Tests.antt =====
-- The theorems on the Digican module at concrete runs.
use agility_contest_serial_c.Base.{
  ◌≡◌, ◌<◌, ◌+◌, ◌*◌, ◌/◌, refl, List, [], ◌∷◌, ◌++◌, some, true, false, pos, ◌+ℤ◌, ◌-ℤ◌, ltb_ℤ,
  wrap32, Text, codes, print_nat, done, arith, distance,
}
use agility_contest_serial_c.Config.{Configuration}
use agility_contest_serial_c.Digican.{
  Digican, BlockingWrite, write_size, all_faults, compose, line_of, module_write,
}
use agility_contest_serial_c.Digican.Sync.{
  fault_target_marks, refusal_target_marks, eliminated_mark,
}
use agility_contest_serial_c.Digican.Counts.{written, module_write-data}
use agility_contest_serial_c.Digican.Read.{line_of-compose}
use agility_contest_serial_c.Samples.{config_0, tokens_of}

-- a port that keeps what is written
abbrev port : BlockingWrite (List Text)
port s sent = (pos 1, s ∷ sent)

abbrev module_0 : Digican (List Text)
module_0 = record { faltas = pos 2; rehuses = pos 1; port = [] }

-- a run with one fault, two touches, two refusals and a dog that is eliminated
abbrev run : Configuration
run = record config_0 {
  status = record config_0.status {
    faults = pos 1;
    touchs = pos 2;
    refusals = pos 2;
    eliminated = pos 1;
    start_time = pos 1000;
    stop_time = pos 43217;
  };
}

-- the same with three faults
abbrev run_3 : Configuration
run_3 = record run { status = record run.status { faults = pos 3 } }

data_fits :
    6
        * (distance (all_faults run.status) module_0.faltas
            + distance run.status.refusals module_0.rehuses)
      + 6
    < write_size
unfolding ◌+ℤ◌ wrap32
data_fits = omega arith

module_write-data_example :
    module_write port module_0 run (tokens_of (codes "web") (codes "data") []) 3
    ≡ written port
        (all_faults run.status)
        run.status.refusals
        ((fault_target_marks run.status module_0.faltas
            ++ refusal_target_marks run.status module_0.rehuses)
          ++ eliminated_mark run.status)
        []
module_write-data_example =
    module_write-data port module_0 run (tokens_of (codes "web") (codes "data") []) 3 refl data_fits

fault_agrees :
    ltb_ℤ module_0.faltas run_3.status.faults ≡ ltb_ℤ module_0.faltas (all_faults run_3.status)
unfolding ◌+ℤ◌ wrap32
fault_agrees = refl

fault_fits : 6 * distance (all_faults run_3.status) module_0.faltas < write_size
unfolding ◌+ℤ◌ wrap32
fault_fits = omega arith

above_faults : ltb_ℤ module_0.faltas run.status.faults ≡ false
above_faults = refl

below_all : ltb_ℤ module_0.faltas (all_faults run.status) ≡ true
unfolding ◌+ℤ◌ wrap32
below_all = refl

elapsed : run.status.stop_time -ℤ run.status.start_time ≡ pos 42217
unfolding ◌-ℤ◌
elapsed = refl

line_of-compose_example :
    (b : Text) × (compose run.status (pos 0) (pos 0) (codes "stop") ≡ done (some (pos 0, pos 0, b)))
    × (line_of b ≡ codes "stop " ++ print_nat (10 * (42217 / 10)) ++ codes "\n")
line_of-compose_example = line_of-compose run.status (pos 0) (pos 0) 42217 elapsed (omega arith)
