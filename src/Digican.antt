-- ===== src/Digican.antt =====
-- src/modules/digican.c: the module of the Digican chronometer. It keeps its own counts of faults and
-- refusals, since the device only counts up and down. The serial port of libserialport is a parameter.
pub mod Sync
pub mod Counts
pub mod Read
mod Tests
use agility_contest_serial_c.Base.{
  ℕ, zero, suc, ◌+◌, ◌-◌, ◌*◌, Bool, true, false, Option, none, some, List, [], ◌∷◌, ◌++◌, ltb,
  if◌then◌else◌, ℤ, pos, negsuc, ◌+ℤ◌, ◌-ℤ◌, sub_ℕ, ltb_ℤ, eqb_ℤ, wrap32, wrap64, div_ℤ, Text,
  codes, starts_with, distance, strcase_eq, isdigit, atoi, print_nat, print_int, length, take, Run,
  done, fault, ◌>>=◌,
}
use agility_contest_serial_c.Config.{Configuration, Status}
use agility_contest_serial_c.Tokens.{Tokens}

-- digican_faltas and digican_rehuses, and the serial port
pub record Digican (P : Type 0) : Type 0 where
  pub faltas : ℤ
  pub rehuses : ℤ
  pub port : P

-- sp_blocking_write: the bytes that are written, its result and the port behind it
abbrev pub BlockingWrite : Type 0 → Type 0
BlockingWrite P = Text → P → ℤ × P

-- module_write has a buffer of 1024 bytes; what sprintf writes at the end of its text goes with a NUL
abbrev pub write_size : ℕ
write_size = 1024

unfoldable pub append : Text → Text → Run Text
append buffer s = if ltb (length buffer + length s) write_size then done (buffer ++ s) else fault

-- `for (;count<target;count++) len+=sprintf(buffer+len,mark)`, on fuel
unfoldable pub count_up : ℕ → Text → ℤ → ℤ → Text → Run (ℤ × Text)
unfolding append ◌+ℤ◌
count_up zero mark target count buffer = done (count, buffer)
count_up (suc f) mark target count buffer =
    if ltb_ℤ count target
    then (do b ← append buffer mark; count_up f mark target (count +ℤ pos 1) b)
    else done (count, buffer)

-- `for (;count>target;count--) len+=sprintf(buffer+len,mark)`
unfoldable pub count_down : ℕ → Text → ℤ → ℤ → Text → Run (ℤ × Text)
unfolding append ◌-ℤ◌
count_down zero mark target count buffer = done (count, buffer)
count_down (suc f) mark target count buffer =
    if ltb_ℤ target count
    then (do b ← append buffer mark; count_down f mark target (count -ℤ pos 1) b)
    else done (count, buffer)

-- the statement `if (up) for... else for...`, with the test as an argument
unfoldable pub track : Bool → Text → Text → ℤ → ℤ → Text → Run (ℤ × Text)
unfolding count_up count_down
track up plus minus target count buffer =
    let rounds = distance target count in
    if up
    then count_up rounds plus target count buffer
    else count_down rounds minus target count buffer

-- `config->status.faults+config->status.touchs`
abbrev pub all_faults : Status → ℤ
all_faults s = wrap32 (s.faults +ℤ s.touchs)

abbrev pub zeros : ℕ → Text
zeros zero = []
zeros (suc n) = b'0' ∷ zeros n

abbrev pub padded : ℕ → Text → Text
padded width s = zeros (width - length s) ++ s

-- %04d
unfoldable pub print_04 : ℤ → Text
unfolding print_nat
print_04 (pos n) = padded 4 (print_nat n)
print_04 (negsuc n) = b'-' ∷ padded 3 (print_nat (suc n))

-- what FAULT leaves: the count and the buffer
unfoldable pub fault_marks : Status → ℤ → Run (ℤ × Text)
unfolding track ◌+ℤ◌ wrap32
fault_marks s faltas =
    track (ltb_ℤ faltas s.faults) (codes "FALT+$") (codes "FALT-$") (all_faults s) faltas []

unfoldable pub refusal_marks : Status → ℤ → Text → Run (ℤ × Text)
unfolding track
refusal_marks s rehuses buffer =
    track (ltb_ℤ rehuses s.refusals) (codes "REHU+$") (codes "REHU-$") s.refusals rehuses buffer

-- what DATA leaves: the two counts and the buffer
unfoldable pub data_marks : Status → ℤ → ℤ → Run (ℤ × ℤ × Text)
unfolding track refusal_marks append ◌+ℤ◌ wrap32
data_marks s faltas rehuses = do
  (f, b) ←
      track (ltb_ℤ faltas (all_faults s)) (codes "FALT+$") (codes "FALT-$") (all_faults s) faltas []
  (r, b') ← refusal_marks s rehuses b
  e ← (if eqb_ℤ s.eliminated (pos 0) then done b' else append b' (codes "ELIMI$"))
  done (f, r, e)

-- `long cents`, cast to int
unfoldable pub stop_cents : Status → ℤ
unfolding ◌-ℤ◌ wrap64 div_ℤ wrap32
stop_cents s = wrap32 (div_ℤ (wrap64 (s.stop_time -ℤ s.start_time)) 10)

-- the commands that are only reported as unsupported: nothing is written into the buffer
abbrev pub unsupported : List Text
unsupported =
    codes "fail"
    ∷ codes "ok"
    ∷ codes "msg"
    ∷ codes "help"
    ∷ codes "version"
    ∷ codes "exit"
    ∷ codes "server"
    ∷ codes "ports"
    ∷ codes "config"
    ∷ codes "status"
    ∷ codes "turn"
    ∷ []

abbrev one_of : List Text → Text → Bool
one_of [] cmd = false
one_of (c ∷ cs) cmd = let rest = one_of cs cmd in if strcase_eq c cmd then true else rest

-- the chain of tests on the command: the counts and the buffer; `none` for the last branch, which
-- returns 0 without a write
unfoldable pub compose : Status → ℤ → ℤ → Text → Run (Option (ℤ × ℤ × Text))
unfolding strcase_eq print_04 stop_cents fault_marks refusal_marks data_marks
compose s f r cmd =
    if strcase_eq (codes "start") cmd
    then done (some (f, r, codes "START$"))
    else if strcase_eq (codes "int") cmd
    then done (some (f, r, codes "TEMPI$"))
    else if strcase_eq (codes "stop") cmd
    then done (some (f, r, codes "PARAR" ++ print_04 (stop_cents s) ++ codes "$"))
    else if strcase_eq (codes "walk") cmd
    then done (some (f, r, codes "RECON$"))
    else if strcase_eq (codes "down") cmd
    then done (some (f, r, codes "INICI$"))
    else if strcase_eq (codes "fault") cmd
    then (do (f', b) ← fault_marks s f; done (some (f', r, b)))
    else if strcase_eq (codes "refusal") cmd
    then (do (r', b) ← refusal_marks s r []; done (some (f, r', b)))
    else if strcase_eq (codes "elim") cmd
    then done (some (f, r, codes "ELIMI$"))
    else if strcase_eq (codes "data") cmd
    then (do marks ← data_marks s f r; done (some marks))
    else if strcase_eq (codes "reset") cmd
    then done (some (pos 0, pos 0, codes "RESET$"))
    else if strcase_eq (codes "clock") cmd
    then done (some (pos 0, pos 0, codes "RELOJ$"))
    else if one_of unsupported cmd
    then done (some (f, r, []))
    else done none

module _ {P : Type 0} (sp_blocking_write : BlockingWrite P) where
  unfoldable pub module_write : Digican P → Configuration → Tokens → ℕ → Run (ℤ × Digican P)
  unfolding compose
  module_write d config t n = do
    composed ← compose config.status d.faltas d.rehuses t.cmd
    elim composed [
      | none ↦ done (pos 0, d)
      | some (f, r, buffer) ↦
          let (ret, p) = sp_blocking_write buffer d.port in
          done (ret, record { faltas = f; rehuses = r; port = p })
    ]

-- snprintf into a buffer of `size` bytes
abbrev pub bounded : ℕ → Text → Text
bounded zero s = []
bounded (suc n) s = take n s

-- `10*atoi(s)`
unfoldable pub cents_to_ms : ℤ → ℤ
unfolding wrap32
cents_to_ms (pos n) = wrap32 (pos (10 * n))
cents_to_ms (negsuc n) = wrap32 (sub_ℕ 0 (10 * suc n))

abbrev pub stop_line : Text → Text
unfolding print_int cents_to_ms atoi
stop_line digits = codes "stop " ++ print_int (cents_to_ms (atoi digits)) ++ codes "\n"

abbrev pub drop_5 : Text → Text
drop_5 (a ∷ b ∷ c ∷ d ∷ e ∷ s) = s
drop_5 _ = []

abbrev starts_digit : Text → Bool
unfolding isdigit
starts_digit [] = false
starts_digit (c ∷ s) = isdigit c

-- the line for the serial manager that module_read makes of the text in its buffer
unfoldable pub line_of : Text → Text
unfolding starts_with print_int cents_to_ms atoi isdigit
line_of inbuff =
    if starts_with (codes "START") inbuff
    then codes "start 0\n"
    else if starts_with (codes "PARAR") inbuff
    then stop_line (drop_5 inbuff)
    else if starts_with (codes "RESET") inbuff
    then codes "reset\n"
    else if starts_with (codes "INICI") inbuff
    then codes "down\n"
    else if starts_with (codes "ELIMI") inbuff
    then codes "elim\n"
    else if starts_digit inbuff
    then stop_line inbuff
    else []

-- the rounds of the do loop: a read that times out gives no bytes; `none` for the whole is a loop that
-- still waits, `some none` a failed read
unfoldable pub next_read : List (Option Text) → Option (Option Text)
next_read [] = none
next_read (none ∷ rs) = some none
next_read (some [] ∷ rs) = next_read rs
next_read (some (c ∷ s) ∷ rs) = some (some (c ∷ s))

-- the buffer of module_read has 1024 bytes too, and a NUL is put behind what has been read
unfoldable pub module_read : List (Option Text) → ℕ → Run (Option Text)
unfolding next_read line_of
module_read reads size = elim (next_read reads) [
  | none ↦ done none
  | some none ↦ done (some [])
  | some (some inbuff) ↦
      if ltb (length inbuff) 1024 then done (some (bounded size (line_of inbuff))) else fault
]
