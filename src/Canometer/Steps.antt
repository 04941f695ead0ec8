-- ===== src/Canometer/Steps.antt =====
-- src/modules/canometroweb.c: the requests that a synchronisation sends to the device.
use agility_contest_serial_c.Base.{
  ℕ, zero, suc, ◌+◌, ◌<◌, ◌≤◌, ◌≡◌, refl, sym, ap, ◌∙◌, true, false, some, List, [], ◌∷◌, ◌++◌,
  length, if◌then◌else◌, ℤ, pos, pos_part, neg_part, distance, ◌+ℤ◌, ◌-ℤ◌, +ℤ_parts, -ℤ_parts,
  wrap32, ltb_ℤ, eqb_ℤ, Text, codes, starts_with, strstr, done, inl, inr, arith, Bool-cases,
}
use agility_contest_serial_c.Config.{Configuration, Status}
use agility_contest_serial_c.Digican.{all_faults}
use agility_contest_serial_c.Canometer.{Data, ReadXml, no_data, parse_status_xml}
use agility_contest_serial_c.Canometer.Link.{
  Put, Request, ask, step, sendrec, request, requests, step_to, synchronize_counts,
  synchronize_chrono, synchronize_out,
}

abbrev pub repeat : ℕ → Request → List Request
repeat zero r = []
repeat (suc n) r = r ∷ repeat n r

-- the requests that take a counter of the device to the target, one by one
abbrev pub steps : Text → ℤ → ℤ → List Request
steps tipo target cur =
    repeat (distance target cur) (step tipo (if ltb_ℤ cur target then codes "1" else codes "-1"))

starts_with-length : (p s : Text) → starts_with p s ≡ true → length p ≤ length s
unfolding starts_with
starts_with-length [] s h = omega arith
starts_with-length (c ∷ p) [] h = cc h
starts_with-length (c ∷ p) (d ∷ s) h = ground (arith, starts_with-length p s)

strstr-length : (s p : Text) → strstr s p ≡ true → length p ≤ length s
unfolding strstr
strstr-length [] p h = starts_with-length p [] h
strstr-length (c ∷ s) p h = elim (Bool-cases (starts_with p (c ∷ s))) [
  | inl here ↦ starts_with-length p (c ∷ s) here
  | inr not_here ↦ omega (arith, strstr-length s p (rw not_here at h))
]

-- the keyword is looked for the wrong way round: no longer answer is found in it
pub long_answer-old : (s : Text) → 6 < length s → strstr (codes "uptime") s ≡ false
long_answer-old s long = elim (Bool-cases (strstr (codes "uptime") s)) [
  | inl found ↦ absurd (omega (arith, long, strstr-length (codes "uptime") s found))
  | inr missing ↦ missing
]

module _ {N : Type 0} (put : Put N) where
  step_to_up :
      (f k : ℕ) (c : Configuration) (tipo : Text) (target cur : ℤ) (net : N)
      → k ≤ f
      → pos_part cur + neg_part target + k ≡ pos_part target + neg_part cur
      → step_to put f c tipo target cur net ≡ requests put c (repeat k (step tipo (codes "1"))) net
  unfolding step_to requests
  step_to_up zero zero c tipo target cur net h e = refl
  step_to_up (suc f) zero c tipo target cur net h e =
      let not_below : ltb_ℤ cur target ≡ false = ground (arith, e) in
      let not_above : ltb_ℤ target cur ≡ false = ground (arith, e) in rw (not_below, not_above) refl
  step_to_up zero (suc k) c tipo target cur net h e = absurd (omega arith)
  step_to_up (suc f) (suc k) c tipo target cur net h e =
      let below : ltb_ℤ cur target ≡ true = ground (arith, e) in
      rw below (
        step_to_up f k c tipo target (cur +ℤ pos 1) (request put c (step tipo (codes "1")) net)
          (omega arith) (omega (arith, e, +ℤ_parts cur (pos 1))))

  step_to_down :
      (f k : ℕ) (c : Configuration) (tipo : Text) (target cur : ℤ) (net : N)
      → k ≤ f
      → pos_part target + neg_part cur + k ≡ pos_part cur + neg_part target
      → step_to put f c tipo target cur net ≡ requests put c (repeat k (step tipo (codes "-1"))) net
  unfolding step_to requests
  step_to_down zero zero c tipo target cur net h e = refl
  step_to_down (suc f) zero c tipo target cur net h e =
      let not_below : ltb_ℤ cur target ≡ false = ground (arith, e) in
      let not_above : ltb_ℤ target cur ≡ false = ground (arith, e) in rw (not_below, not_above) refl
  step_to_down zero (suc k) c tipo target cur net h e = absurd (omega arith)
  step_to_down (suc f) (suc k) c tipo target cur net h e =
      let not_below : ltb_ℤ cur target ≡ false = ground (arith, e) in
      let above : ltb_ℤ target cur ≡ true = ground (arith, e) in
      rw (not_below, above)
        (step_to_down f k c tipo target (cur -ℤ pos 1) (request put c (step tipo (codes "-1")) net)
          (omega arith) (omega (arith, e, -ℤ_parts cur (pos 1))))

  pub step_to-steps :
      (c : Configuration) (tipo : Text) (target cur : ℤ) (net : N)
      → step_to put (distance target cur) c tipo target cur net
        ≡ requests put c (steps tipo target cur) net
  step_to-steps c tipo target cur net = elim (Bool-cases (ltb_ℤ cur target)) [
    | inl up ↦ rw up (
        step_to_up (distance target cur) (distance target cur) c tipo target cur net (omega arith)
          (ground (arith, up)))
    | inr down ↦ rw down (
        step_to_down (distance target cur) (distance target cur) c tipo target cur net (omega arith)
          (ground (arith, down)))
  ]

  requests-append :
      (c : Configuration) (rs qs : List Request) (net : N)
      → requests put c (rs ++ qs) net ≡ requests put c qs (requests put c rs net)
  unfolding requests
  requests-append c [] qs net = refl
  requests-append c (r ∷ rs) qs net = requests-append c rs qs (request put c r net)

  abbrev pub out_request : Status → Data → List Request
  out_request s d = if eqb_ℤ s.eliminated d.eliminado then [] else step (codes "E") (codes "0") ∷ []

  synchronize_out-requests :
      (c : Configuration) (d : Data) (net : N)
      → synchronize_out put c d net ≡ requests put c (out_request c.status d) net
  unfolding requests
  synchronize_out-requests c d net = elim (Bool-cases (eqb_ℤ c.status.eliminated d.eliminado)) [
    | inl same ↦ rw same refl
    | inr other ↦ rw other refl
  ]

  -- all the requests behind the one for the state of the device
  abbrev pub synchronizing : Status → Data → List Request
  unfolding ◌+ℤ◌ wrap32
  synchronizing s d =
      steps (codes "F") (all_faults s) d.faltas
      ++ (steps (codes "R") s.refusals d.rehuses ++ out_request s d)

  synchronize_counts-old :
      (c : Configuration) (d : Data) (net : N)
      → synchronize_out put c d (synchronize_counts put false c d net)
        ≡ requests put c (synchronizing c.status d) net
  unfolding synchronize_counts
  synchronize_counts-old c d net =
      let faults = steps (codes "F") (all_faults c.status) d.faltas in
      let refusals = steps (codes "R") c.status.refusals d.rehuses in
      rw
        (
          step_to-steps c (codes "F") (all_faults c.status) d.faltas net,
          step_to-steps c (codes "R") c.status.refusals d.rehuses (requests put c faults net),
        )
        (synchronize_out-requests c d _
          ∙ sym (requests-append c refusals (out_request c.status d) (requests put c faults net))
          ∙ sym (requests-append c faults (refusals ++ out_request c.status d) net))

  -- If the answer of the device is longer than 6 bytes and is read, the synchronisation sends it
  -- exactly as many steps for faults and for refusals as its counters differ from those of the run, in
  -- the right direction, and then the elimination if that differs; it returns 0 and notes the counters.
  pub synchronize_chrono-requests :
      (read_xml : ReadXml) (c : Configuration) (cw d : Data) (received : Text) (net : N)
      → (sendrec put c (ask (codes "xml")) net).0 ≡ some received
      → 6 < length received
      → parse_status_xml read_xml no_data received ≡ done (some d)
      → synchronize_chrono put read_xml c cw net
        ≡ done (
          pos 0,
          record cw {
            eliminado = c.status.eliminated;
            rehuses = c.status.refusals;
            faltas = c.status.faults;
          },
          requests put c (synchronizing c.status d) (sendrec put c (ask (codes "xml")) net).1,
        )
  unfolding synchronize_chrono
  synchronize_chrono-requests read_xml c cw d received net answered long parsed =
      rw (answered, synchronize_chrono)
        (rw (parsed, long_answer-old received long)
          (ap
            (λ n. done (
              pos 0,
              record cw {
                eliminado = c.status.eliminated;
                rehuses = c.status.refusals;
                faltas = c.status.faults;
              },
              n,
            ))
            (synchronize_counts-old c d (sendrec put c (ask (codes "xml")) net).1)))
