-- ===== src/MainMgr/Valid.antt =====
-- The range of the counters of the run, across the handlers of src/main_mgr.c.
use mathlib.Core.Path.{subst}
use mathlib.Core.Option.{some-injective}
use agility_contest_serial_c.Base.{
  ℕ, zero, suc, ◌+◌, ◌≡◌, ◌≢◌, refl, ◌⊎◌, inl, inr, true, some, List, [], ◌∷◌, ◌==◌, ℤ, pos, negsuc,
  ◌≤ℤ◌, arith, done, Returns, length, get_elem?, Text, Bool-cases, atoi,
}
use agility_contest_serial_c.Debug.{set_debug_level_bounds}
use agility_contest_serial_c.Tokens.{Tokens, ntokens, arg}
use agility_contest_serial_c.MainMgr.{
  Main, Handler, count_faults, count_arg, counted, elim_arg, int_add, at_least_0, at_most_9,
  set_faults, main_mgr_start, main_mgr_int, main_mgr_stop, main_mgr_log, main_mgr_fault,
  main_mgr_refusal, main_mgr_elim, main_mgr_reset, main_mgr_numero, main_mgr_bright, main_mgr_debug,
  main_mgr_entries,
}

-- What the counters hold: none is negative, the elimination is 0 or 1, the brightness is from 0 to 9 and
-- the debug level from 0 to 8.
pub record IsValid (m : Main) : Type 0 where
  pub faults : pos 0 ≤ℤ m.status.faults
  pub touchs : pos 0 ≤ℤ m.status.touchs
  pub refusals : pos 0 ≤ℤ m.status.refusals
  pub numero : pos 0 ≤ℤ m.status.numero
  pub eliminated : (m.status.eliminated ≡ pos 0) ⊎ (m.status.eliminated ≡ pos 1)
  pub bright : (pos 0 ≤ℤ m.config.bright) × (m.config.bright ≤ℤ pos 9)
  pub level : (pos 0 ≤ℤ m.debug_level) × (m.debug_level ≤ℤ pos 8)

-- A result of 0 or -1, and a state in range.
abbrev pub Kept : ℤ × Main → Type 0
Kept (res, m) = ((res ≡ pos 0) ⊎ (res ≡ negsuc 0)) × IsValid m

-- On a token array that goes with its number, the handler is defined and keeps the counters in range.
abbrev pub Keeps : Handler → Type 0
Keeps f = (m : Main) (t : Tokens) → IsValid m → Returns Kept (f m t (ntokens t))

start-Keeps : Keeps main_mgr_start
unfolding main_mgr_start arg
start-Keeps m t v = ground arith

int-Keeps : Keeps main_mgr_int
unfolding main_mgr_int arg
int-Keeps m t v = ground arith

stop-Keeps : Keeps main_mgr_stop
unfolding main_mgr_stop arg
stop-Keeps m t v = ground arith

log-Keeps : Keeps main_mgr_log
unfolding main_mgr_log
log-Keeps m t v = ground arith

set_faults-Keeps : (m : Main) (c : ℤ × ℤ) → IsValid m → Returns Kept (set_faults m c)
unfolding set_faults
set_faults-Keeps m (f, c) v = ground arith

-- a third token is there when the number says so
arg-done : (l : List Text) → (2 + length l == 3) ≡ true → (a : Text) × (arg l ≡ done a)
unfolding arg
arg-done [] h = absurd (ground arith)
arg-done (a ∷ l) h = (a, refl)

counted-done : (z : ℤ) (t : Tokens) → (z' : ℤ) × (counted z t (ntokens t) ≡ done z')
unfolding counted
counted-done z t = elim (Bool-cases (ntokens t == 3)) [
  | inl three ↦ let (a, e) = arg-done t.args three in (count_arg z a, rw (three, e))
  | inr other ↦ (int_add z (pos 1), rw other)
]

fault-Keeps : Keeps main_mgr_fault
unfolding main_mgr_fault
fault-Keeps m t v = elim (Bool-cases (ntokens t == 3)) [
  | inl three ↦
      let (a, e) = arg-done t.args three in
      rw (three, e) (set_faults-Keeps m (count_faults m.status.faults m.status.touchs a) v)
  | inr other ↦ rw other (set_faults-Keeps m (int_add m.status.faults (pos 1), m.status.touchs) v)
]

refusal-Keeps : Keeps main_mgr_refusal
unfolding main_mgr_refusal
refusal-Keeps m t v = let (z, e) = counted-done m.status.refusals t in rw e (ground arith)

numero-Keeps : Keeps main_mgr_numero
unfolding main_mgr_numero
numero-Keeps m t v = let (z, e) = counted-done m.status.numero t in rw e (ground arith)

clamped_bounds : (z : ℤ) → (pos 0 ≤ℤ at_most_9 (at_least_0 z)) × (at_most_9 (at_least_0 z) ≤ℤ pos 9)
clamped_bounds z = ground arith

bright-Keeps : Keeps main_mgr_bright
unfolding main_mgr_bright
bright-Keeps m t v =
    let (z, e) = counted-done m.config.bright t in
    rw e (
      inl refl,
      record {
        faults = v.faults;
        touchs = v.touchs;
        refusals = v.refusals;
        numero = v.numero;
        eliminated = v.eliminated;
        bright = clamped_bounds z;
        level = v.level;
      },
    )

elim_arg_bit : (a : Text) → (elim_arg a ≡ pos 0) ⊎ (elim_arg a ≡ pos 1)
unfolding elim_arg
elim_arg_bit a = ground arith

elim-Keeps : Keeps main_mgr_elim
unfolding main_mgr_elim
elim-Keeps m t v = elim (Bool-cases (ntokens t == 3)) [
  | inl three ↦ let (a, e) = arg-done t.args three in rw (three, e) (ground (arith, elim_arg_bit a))
  | inr other ↦ rw other (ground arith)
]

reset-Keeps : Keeps main_mgr_reset
unfolding main_mgr_reset
reset-Keeps m t v = ground arith

debug-Keeps : Keeps main_mgr_debug
unfolding main_mgr_debug
debug-Keeps m t v = elim (Bool-cases (ntokens t == 3)) [
  | inl three ↦
      let (a, e) = arg-done t.args three in
      rw (three, e) (ground (arith, set_debug_level_bounds (atoi a)))
  | inr other ↦ rw other (ground arith)
]

abbrev pub data_index : ℕ
data_index = 11

-- the same of each entry from position `i` on but that of DATA
abbrev KeepsFrom : ℕ → List Handler → Type 0
KeepsFrom i [] = Unit
KeepsFrom i (f ∷ fs) = (i ≢ data_index → Keeps f) × KeepsFrom (i + 1) fs

KeepsFrom-get_elem? :
    (i k : ℕ) (fs : List Handler) {f : Handler}
    → KeepsFrom i fs
    → i + k ≢ data_index
    → get_elem? fs k ≡ some f
    → Keeps f
KeepsFrom-get_elem? i k [] h ne e = cc
KeepsFrom-get_elem? i zero (g ∷ fs) {f} h ne e =
    subst Keeps (some-injective g f e) (h.0 (λ x. ne (omega (arith, x))))
KeepsFrom-get_elem? i (suc k) (g ∷ fs) h ne e =
    KeepsFrom-get_elem? (i + 1) k fs h.1 (λ x. ne (omega (arith, x))) e

-- Every handler of the table but that of DATA is defined on every command, reports success or
-- failure, and keeps the counters in range.
pub main_mgr_entries-Keeps :
    (index : ℕ) {f : Handler}
    → index ≢ data_index
    → get_elem? main_mgr_entries index ≡ some f
    → Keeps f
main_mgr_entries-Keeps index ne e =
    KeepsFrom-get_elem? 0 index main_mgr_entries
      (
        (λ _. start-Keeps),
        (
          (λ _. int-Keeps),
          (
            (λ _. stop-Keeps),
            (
              (λ _. log-Keeps),
              (
                (λ _. log-Keeps),
                (
                  (λ _. log-Keeps),
                  (
                    (λ _. log-Keeps),
                    (
                      (λ _. log-Keeps),
                      (
                        (λ _. fault-Keeps),
                        (
                          (λ _. refusal-Keeps),
                          (
                            (λ _. elim-Keeps),
                            (
                              (λ at. absurd (at refl)),
                              (
                                (λ _. reset-Keeps),
                                (
                                  (λ _. log-Keeps),
                                  (
                                    (λ _. log-Keeps),
                                    (
                                      (λ _. log-Keeps),
                                      (
                                        (λ _. log-Keeps),
                                        (
                                          (λ _. log-Keeps),
                                          (
                                            (λ _. log-Keeps),
                                            (
                                              (λ _. log-Keeps),
                                              (
                                                (λ _. numero-Keeps),
                                                (
                                                  (λ _. bright-Keeps),
                                                  (
                                                    (λ _. log-Keeps),
                                                    ((λ _. debug-Keeps), ((λ _. log-Keeps), tt)),
                                                  ),
                                                ),
                                              ),
                                            ),
                                          ),
                                        ),
                                      ),
                                    ),
                                  ),
                                ),
                              ),
                            ),
                          ),
                        ),
                      ),
                    ),
                  ),
                ),
              ),
            ),
          ),
        ),
      )
      (λ x. ne (omega (arith, x))) e

-- Every handler of the table but the one of DATA, called with an array of tokens and its number in a
-- state whose counters are in range, is defined, returns 0 or -1, and leaves the counters in range.
pub main_mgr_entries-IsValid :
    (index : ℕ) (f : Handler) (m : Main) (t : Tokens)
    → index ≢ data_index
    → get_elem? main_mgr_entries index ≡ some f
    → IsValid m
    → Returns Kept (f m t (ntokens t))
main_mgr_entries-IsValid index f m t ne e v = main_mgr_entries-Keeps index ne e m t v
