-- ===== src/Canometer/Converge.antt =====
-- The counters that src/modules/canometroweb.c reports, after src/main_mgr.c has taken them over.
use agility_contest_serial_c.Base.{
  ℕ, zero, suc, ◌/◌, ◌^◌, ◌<◌, ◌≤◌, ◌≡◌, refl, sym, ap, ◌∙◌, true, List, [], ◌∷◌, ◌++◌, ltb,
  if◌then◌else◌, pos, ◌+ℤ◌, ◌-ℤ◌, -ℤ_parts, wrap32, wrap32_eq, IsInt, int_laws, append_assoc, eqb_ℤ,
  eqb_ℤ_iff, Text, codes, print_nat, print_from, print_int, atoi-print, done, inl, inr, arith,
  Bool-cases,
}
use agility_contest_serial_c.Config.{Status}
use agility_contest_serial_c.Tokens.{Tokens, ntokens}
use agility_contest_serial_c.Tools.Explode.{IsToken}
use agility_contest_serial_c.MainMgr.{Main, main_mgr_data, int_sub}
use agility_contest_serial_c.MainMgr.Data.{main_mgr_data_lem, after_data}
use agility_contest_serial_c.Digican.{all_faults, drop_5}
use agility_contest_serial_c.Canometer.{Data}
use agility_contest_serial_c.Canometer.Poll.{data_line, agrees}

IsToken-append : (c : ℕ) (s t : Text) → IsToken c s → IsToken c t → IsToken c (s ++ t)
IsToken-append c [] t hs ht = ht
IsToken-append c (d ∷ s) t hs ht = ground (arith, IsToken-append c s t)

print_from-IsToken : (f n : ℕ) → IsToken b':' (print_from f n)
unfolding print_from
print_from-IsToken zero n = refl
print_from-IsToken (suc f) n = elim (Bool-cases (ltb n 10)) [
  | inl small ↦ rw small (ground arith)
  | inr large ↦
      rw large (
        IsToken-append b':' (print_from f (n / 10)) _ (print_from-IsToken f (n / 10))
          (ground arith))
]

print_nat-IsToken : (n : ℕ) → IsToken b':' (print_nat n)
unfolding print_nat
print_nat-IsToken n = print_from-IsToken (suc n) n

agrees-of :
    (s : Status) (d : Data)
    → d.faltas ≡ all_faults s
    → d.rehuses ≡ s.refusals
    → d.eliminado ≡ s.eliminated
    → agrees s d ≡ true
unfolding agrees
agrees-of s d f r e =
    let ef = (eqb_ℤ_iff d.faltas (all_faults s)).1 f in
    let er = (eqb_ℤ_iff d.rehuses s.refusals).1 r in
    let ee = (eqb_ℤ_iff d.eliminado s.eliminated).1 e in rw (ef, er, ee) refl

less_and_more :
    (f c : ℕ) → f < 2 ^ 31 → c < 2 ^ 31 → wrap32 (int_sub (pos f) (pos c) +ℤ pos c) ≡ pos f
less_and_more f c fs cs =
    let in_range : IsInt (pos f -ℤ pos c) = ground (arith, -ℤ_parts (pos f) (pos c)) in
    let sum : (pos f -ℤ pos c) +ℤ pos c ≡ pos f = omega int_laws in
    rw (wrap32_eq (pos f -ℤ pos c) in_range, sum) (wrap32_eq (pos f) (ground arith))

elimination : (e : ℕ) → e ≤ 1 → pos e ≡ (if eqb_ℤ (pos e) (pos 0) then pos 0 else pos 1)
elimination e h = ground arith

abbrev counters : ℕ → ℕ → ℕ → Text
counters f r e = print_nat f ++ b':' ∷ (print_nat r ++ b':' ∷ print_nat e)

regroup : (a b c : Text) (k : ℕ) → ((((a ++ k ∷ []) ++ b) ++ k ∷ []) ++ c) ≡ a ++ k ∷ (b ++ k ∷ c)
regroup [] b c k = ap (λ x. k ∷ x) (append_assoc b (k ∷ []) c)
regroup (d ∷ a) b c k = ap (λ x. d ∷ x) (regroup a b c k)

data_line_lem :
    (d : Data) (f r e : ℕ)
    → d.faltas ≡ pos f
    → d.rehuses ≡ pos r
    → d.eliminado ≡ pos e
    → data_line d ≡ codes "DATA " ++ counters f r e
unfolding data_line print_int
data_line_lem d f r e df dr de =
    rw (df, dr, de)
      (ap (λ x. codes "DATA " ++ x) (regroup (print_nat f) (print_nat r) (print_nat e) b':'))

module _ (m : Main) (d : Data) (f r e c : ℕ) (df : d.faltas ≡ pos f) (dr : d.rehuses ≡ pos r)
    (de : d.eliminado ≡ pos e) (mc : m.status.touchs ≡ pos c) (fs : f < 2 ^ 31) (rs : r < 2 ^ 31)
    (es : e ≤ 1) (cs : c < 2 ^ 31) where
  -- the state after DATA with numbers: the counters of the device
  after_data-agrees :
      agrees (after_data m (print_nat f) (print_nat r) (print_nat e)).status d ≡ true
  after_data-agrees =
      agrees-of (after_data m (print_nat f) (print_nat r) (print_nat e)).status d
        (df ∙ sym (rw (atoi-print f fs, mc, all_faults) (less_and_more f c fs cs)))
        (dr ∙ sym (atoi-print r rs)) (de ∙ rw (atoi-print e (omega (arith, es))) (elimination e es))

  -- When the main loop serves the DATA line that module_read makes of the counters of the device, of 0
  -- to 2^31 - 1 faults and refusals and an elimination of 0 or 1, the counters of the run are those of
  -- the device afterwards, so that the next module_read does not report them again; the touches must
  -- not be negative.
  pub data_line-converges :
      (t : Tokens) (text : Text) (rest : List Text)
      → data_line d ≡ codes "DATA " ++ text
      → t.args ≡ text ∷ rest
      → (m' : Main) × (main_mgr_data m t (ntokens t) ≡ done (pos 0, m'))
        × (agrees m'.status d ≡ true)
  data_line-converges t text rest line args =
      let same : text ≡ counters f r e = ap drop_5 (sym line ∙ data_line_lem d f r e df dr de) in
      (
        after_data m (print_nat f) (print_nat r) (print_nat e),
        main_mgr_data_lem m t (print_nat f) (print_nat r) (print_nat e) rest
            (args ∙ ap (λ x. x ∷ rest) same) (print_nat-IsToken f) (print_nat-IsToken r),
        after_data-agrees,
      )
