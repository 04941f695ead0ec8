-- ===== src/Canometer/Poll.antt =====
-- src/modules/canometroweb.c: module_read, which makes a command of what has changed at the device.
use Prim.Native.Nat.{bit_or}
use agility_contest_serial_c.Base.{
  ℕ, zero, suc, Bool, true, false, not, ◌&&◌, Option, none, some, List, [], ◌∷◌, ◌++◌, ◌==◌,
  if◌then◌else◌, ℤ, pos, negsuc, ◌+ℤ◌, eqb_ℤ, wrap32, Text, codes, print_int, print_nat, length,
  Run, done, ◌>>=◌,
}
use agility_contest_serial_c.Config.{Configuration, Status}
use agility_contest_serial_c.Digican.{all_faults, bounded}
use agility_contest_serial_c.Canometer.{Data, Setup, ReadXml, no_data, one_of, parse_status_xml}
use agility_contest_serial_c.Canometer.Link.{Put, sendrec, ask}

-- cw_data, cw_config, the value of the semaphore, and the network
pub record Canometer (N : Type 0) : Type 0 where
  pub cw_data : Data
  pub cw_config : Setup
  pub sem : ℕ
  pub net : N

-- sem_wait: `none` for a thread that waits, since nobody else is there to release the semaphore
unfoldable pub sem_wait :
    {N A : Type 0} → Canometer N → (Canometer N → Run (Option A)) → Run (Option A)
sem_wait m body = elim m.sem as (λ s. Run (Option _)) [
  | zero ↦ done none
  | suc s ↦ body (record m { sem = s })
]

abbrev pub sem_post : {N : Type 0} → Canometer N → Canometer N
sem_post m = record m { sem = suc m.sem }

abbrev bit : Bool → ℕ → ℕ
bit b n = if b then n else 0

unfoldable pub mask_of : Data → Data → ℕ
mask_of old new =
    bit_or
      (bit_or (bit_or (bit (not (eqb_ℤ old.running (pos 0))) 8) (bit (not (old.tiempo == 0)) 4))
        (bit (not (eqb_ℤ new.running (pos 0))) 2))
      (bit (not (new.tiempo == 0)) 1)

abbrev pub start_line : Text
start_line = codes "START 0\n"

abbrev pub reset_line : Text
reset_line = codes "RESET\n"

abbrev pub time_line : Text → ℕ → Text
unfolding print_nat
time_line cmd t = cmd ++ print_nat t ++ codes "\n"

-- the masks of the cases with the same body
abbrev pub start_masks : List ℕ
start_masks = 2 ∷ 3 ∷ 6 ∷ 7 ∷ 14 ∷ []

abbrev pub reset_masks : List ℕ
reset_masks = 4 ∷ 8 ∷ 12 ∷ []

-- the switch on the mask, in which the empty text stands for no command
unfoldable pub action : ℕ → Data → Data → Text
unfolding print_nat
action mask old new =
    if one_of start_masks mask
    then start_line
    else if one_of reset_masks mask
    then reset_line
    else if mask == 13
    then time_line (codes "STOP ") new.tiempo
    else if mask == 15
    then (if old.tiempo == new.tiempo then time_line (codes "INT ") new.tiempo else [])
    else []

unfoldable pub data_line : Data → Text
unfolding print_int
data_line d =
    codes "DATA "
    ++ print_int d.faltas
    ++ codes ":"
    ++ print_int d.rehuses
    ++ codes ":"
    ++ print_int d.eliminado

-- `strlen(buffer)==0`
abbrev empty : Text → Bool
empty [] = true
empty (c ∷ s) = false

-- whether the counters of the device are those of the run
unfoldable pub agrees : Status → Data → Bool
unfolding ◌+ℤ◌ wrap32
agrees s d =
    eqb_ℤ d.faltas (all_faults s) && (eqb_ℤ d.rehuses s.refusals && eqb_ℤ d.eliminado s.eliminated)

abbrev answer : {N : Type 0} → Canometer N → Text → Run (Option (ℤ × Text × Canometer N))
answer m buffer = done (some (pos (length buffer), buffer, sem_post m))

-- what follows the test for a document: the result, the buffer and the state
unfoldable pub report :
    {N : Type 0} → Configuration → ℕ → Data → Canometer N → Run (Option (ℤ × Text × Canometer N))
unfolding mask_of action agrees data_line
report c size new m =
    let buffer = bounded size (action (mask_of m.cw_data new) m.cw_data new) in
    let stored = record m.cw_data { tiempo = new.tiempo; running = new.running } in
    if not (empty buffer)
    then answer (record m { cw_data = stored }) buffer
    else if agrees c.status new
    then answer (record m { cw_data = stored }) []
    else answer
        (record m {
          cw_data = record stored {
            faltas = new.faltas;
            rehuses = new.rehuses;
            eliminado = new.eliminado;
          };
        })
        (bounded size (data_line new))

module _ {N : Type 0} (put : Put N) (read_xml : ReadXml) where
  -- Without an answer of the device the buffer is left as it was.
  unfoldable pub module_read :
      Configuration → Text → ℕ → Canometer N → Run (Option (ℤ × Text × Canometer N))
  unfolding sem_wait sendrec parse_status_xml report
  module_read c buffer size m = sem_wait m (λ m.
      let (answer, net') = sendrec put c (ask (codes "xml")) m.net in
      elim answer [
        | none ↦ done (some (pos 0, buffer, sem_post (record m { net = net' })))
        | some received ↦ do
          parsed ← parse_status_xml read_xml no_data received
          elim parsed [
            | none ↦ done (some (negsuc 0, buffer, sem_post (record m { net = net' })))
            | some new ↦ report c size new (record m { net = net' })
          ]
      ])
