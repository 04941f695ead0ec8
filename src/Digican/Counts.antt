-- ===== src/Digican/Counts.antt =====
-- What FAULT, REFUSAL and DATA of src/modules/digican.c leave: the counts that the module keeps, against
-- the counters of the run.
use agility_contest_serial_c.Base.{
  ℕ, ◌+◌, ◌*◌, ◌<◌, ◌≡◌, refl, true, false, [], ◌++◌, ℤ, pos, distance, ltb_ℤ, eqb_ℤ, Text, codes,
  str_eq, tolower, strcase_eq, length, length-append, append-nil, Run, done, arith, Bool-cases, inl,
  inr,
}
use agility_contest_serial_c.Config.{Configuration, Status}
use agility_contest_serial_c.Tokens.{Tokens}
use agility_contest_serial_c.Digican.{
  Digican, BlockingWrite, write_size, track, all_faults, fault_marks, refusal_marks, data_marks,
  compose, module_write,
}
use agility_contest_serial_c.Digican.Sync.{
  track_lem, length-marks, append-fits, count_down-below, eliminated_mark, fault_target_marks,
  refusal_target_marks,
}

refusal_marks_lem :
    (s : Status) (rehuses : ℤ) (buffer : Text)
    → length buffer + 6 * distance s.refusals rehuses < write_size
    → refusal_marks s rehuses buffer ≡ done (s.refusals, buffer ++ refusal_target_marks s rehuses)
unfolding refusal_marks
refusal_marks_lem s rehuses buffer fits =
    let len = length-marks (codes "REHU+$") (codes "REHU-$") s.refusals rehuses refl refl in
    track_lem (codes "REHU+$") (codes "REHU-$") s.refusals rehuses buffer (omega (arith, fits, len))

data_marks_lem :
    (s : Status) (faltas rehuses : ℤ)
    → 6 * (distance (all_faults s) faltas + distance s.refusals rehuses) + 6 < write_size
    → data_marks s faltas rehuses
      ≡ done (
        all_faults s,
        s.refusals,
        (fault_target_marks s faltas ++ refusal_target_marks s rehuses) ++ eliminated_mark s,
      )
unfolding data_marks
data_marks_lem s faltas rehuses fits =
    let fl = length-marks (codes "FALT+$") (codes "FALT-$") (all_faults s) faltas refl refl in
    let rl = length-marks (codes "REHU+$") (codes "REHU-$") s.refusals rehuses refl refl in
    let both = length-append (fault_target_marks s faltas) (refusal_target_marks s rehuses) in
    rw
      (
        track_lem (codes "FALT+$") (codes "FALT-$") (all_faults s) faltas []
            (omega (arith, fits, fl)),
        refusal_marks_lem s rehuses (fault_target_marks s faltas) (omega (arith, fits, fl)),
      )
      (elim (Bool-cases (eqb_ℤ s.eliminated (pos 0))) [
        | inl kept ↦
            rw (kept, append-nil (fault_target_marks s faltas ++ refusal_target_marks s rehuses))
              refl
        | inr out ↦
            rw
              (
                out,
                append-fits (fault_target_marks s faltas ++ refusal_target_marks s rehuses)
                    (codes "ELIMI$") (omega (arith, fits, fl, rl, both)),
              )
              refl
      ])

-- where the guard of FAULT and the one of DATA agree, so do their marks
fault_marks_lem :
    (s : Status) (faltas : ℤ)
    → ltb_ℤ faltas s.faults ≡ ltb_ℤ faltas (all_faults s)
    → 6 * distance (all_faults s) faltas < write_size
    → fault_marks s faltas ≡ done (all_faults s, fault_target_marks s faltas)
unfolding fault_marks
fault_marks_lem s faltas same fits =
    let fl = length-marks (codes "FALT+$") (codes "FALT-$") (all_faults s) faltas refl refl in
    rw same (
      track_lem (codes "FALT+$") (codes "FALT-$") (all_faults s) faltas []
        (omega (arith, fits, fl)))

-- between the two, the loop that counts down starts below its end
fault_marks-between :
    (s : Status) (faltas : ℤ)
    → ltb_ℤ faltas s.faults ≡ false
    → ltb_ℤ faltas (all_faults s) ≡ true
    → fault_marks s faltas ≡ done (faltas, [])
unfolding fault_marks track
fault_marks-between s faltas not_below below = rw not_below (
    count_down-below (distance (all_faults s) faltas) (codes "FALT-$") (all_faults s) faltas []
      below)

module _ {P : Type 0} (sp_blocking_write : BlockingWrite P) where
  abbrev pub written : ℤ → ℤ → Text → P → Run (ℤ × Digican P)
  written f r buffer p =
      let (ret, p') = sp_blocking_write buffer p in
      done (ret, record { faltas = f; rehuses = r; port = p' })

  -- DATA brings both counts of the module to the counters of the run and writes exactly the marks that
  -- the device needs for that, with ELIMI behind them for an eliminated dog, provided that the marks fit
  -- into the buffer of 1024 bytes.
  pub module_write-data :
      (d : Digican P) (c : Configuration) (t : Tokens) (n : ℕ)
      → t.cmd ≡ codes "data"
      → 6 * (distance (all_faults c.status) d.faltas + distance c.status.refusals d.rehuses) + 6
        < write_size
      → module_write sp_blocking_write d c t n
        ≡ written
            (all_faults c.status)
            c.status.refusals
            ((fault_target_marks c.status d.faltas ++ refusal_target_marks c.status d.rehuses)
              ++ eliminated_mark c.status)
            d.port
  unfolding module_write compose strcase_eq str_eq tolower
  module_write-data d c t n cmd fits =
      rw (cmd, data_marks_lem c.status d.faltas d.rehuses fits) refl

  -- FAULT brings the count to the faults and touches of the run together, and sends that many marks, if
  -- the count is below the faults of the run or not below the faults and touches together.
  pub module_write-fault :
      (d : Digican P) (c : Configuration) (t : Tokens) (n : ℕ)
      → t.cmd ≡ codes "fault"
      → ltb_ℤ d.faltas c.status.faults ≡ ltb_ℤ d.faltas (all_faults c.status)
      → 6 * distance (all_faults c.status) d.faltas < write_size
      → module_write sp_blocking_write d c t n
        ≡ written (all_faults c.status) d.rehuses (fault_target_marks c.status d.faltas) d.port
  unfolding module_write compose strcase_eq str_eq tolower
  module_write-fault d c t n cmd same fits =
      rw (cmd, fault_marks_lem c.status d.faltas same fits) refl

  -- FAULT sends no mark and leaves the count behind the run, if the count is not below the faults of the
  -- run, but below the faults and touches together.
  pub module_write-fault_between :
      (d : Digican P) (c : Configuration) (t : Tokens) (n : ℕ)
      → t.cmd ≡ codes "fault"
      → ltb_ℤ d.faltas c.status.faults ≡ false
      → ltb_ℤ d.faltas (all_faults c.status) ≡ true
      → module_write sp_blocking_write d c t n ≡ written d.faltas d.rehuses [] d.port
  unfolding module_write compose strcase_eq str_eq tolower
  module_write-fault_between d c t n cmd not_below below =
      rw (cmd, fault_marks-between c.status d.faltas not_below below) refl

  -- REFUSAL brings the count of refusals to the one of the run and sends that many marks, if they fit.
  pub module_write-refusal :
      (d : Digican P) (c : Configuration) (t : Tokens) (n : ℕ)
      → t.cmd ≡ codes "refusal"
      → 6 * distance c.status.refusals d.rehuses < write_size
      → module_write sp_blocking_write d c t n
        ≡ written d.faltas c.status.refusals (refusal_target_marks c.status d.rehuses) d.port
  unfolding module_write compose strcase_eq str_eq tolower
  module_write-refusal d c t n cmd fits =
      rw (cmd, refusal_marks_lem c.status d.rehuses [] (omega (arith, fits))) refl
