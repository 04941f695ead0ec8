-- ===== src/Digican/Sync.antt =====
-- The counts that src/modules/digican.c keeps, and the marks that it sends to bring the device to them.
use agility_contest_serial_c.Base.{
  ℕ, zero, suc, ◌+◌, ◌*◌, ◌<◌, ◌≤◌, ◌≡◌, refl, ◌∙◌, true, false, [], ◌++◌, if◌then◌else◌, ℤ, pos,
  distance, pos_part, neg_part, ◌+ℤ◌, ◌-ℤ◌, ltb_ℤ, eqb_ℤ, wrap32, Text, codes, length,
  length-append, append_assoc, append-nil, done, arith, eq_of_parts, +ℤ_parts, -ℤ_parts, Bool-cases,
  inl, inr,
}
use agility_contest_serial_c.Config.{Status}
use agility_contest_serial_c.Digican.{write_size, append, count_up, count_down, track, all_faults}

abbrev pub copies : ℕ → Text → Text
copies zero s = []
copies (suc n) s = s ++ copies n s

-- the marks that take a count to the target: as many as the difference, of the one or the other kind
abbrev pub marks : Text → Text → ℤ → ℤ → Text
marks plus minus target count =
    copies (distance target count) (if ltb_ℤ count target then plus else minus)

length-copies : (n : ℕ) (s : Text) → length s ≡ 6 → length (copies n s) ≡ 6 * n
length-copies zero s h = refl
length-copies (suc n) s h = omega (arith, length-append s (copies n s), length-copies n s h, h)

pub append-fits :
    (buffer s : Text) → length buffer + length s < write_size → append buffer s ≡ done (buffer ++ s)
unfolding append
append-fits buffer s h = ground (arith, h)

append-copies :
    (buffer s : Text) (k : ℕ)
    → length buffer + length (copies (suc k) s) < write_size
    → (length buffer + length s < write_size)
      × (length (buffer ++ s) + length (copies k s) < write_size)
append-copies buffer s k h =
    let whole = length-append s (copies k s) in
    (omega (arith, h, whole), omega (arith, h, whole, length-append buffer s))

count_up_lem :
    (f k : ℕ) (mark : Text) (target count : ℤ) (buffer : Text)
    → k ≤ f
    → pos_part count + neg_part target + k ≡ pos_part target + neg_part count
    → length buffer + length (copies k mark) < write_size
    → count_up f mark target count buffer ≡ done (target, buffer ++ copies k mark)
unfolding count_up
count_up_lem zero zero mark target count buffer h e fits =
    rw (append-nil buffer, eq_of_parts count target (omega (arith, e))) refl
count_up_lem (suc f) zero mark target count buffer h e fits =
    let here : ltb_ℤ count target ≡ false = ground (arith, e) in
    rw (here, append-nil buffer, eq_of_parts count target (omega (arith, e))) refl
count_up_lem zero (suc k) mark target count buffer h e fits = absurd (omega arith)
count_up_lem (suc f) (suc k) mark target count buffer h e fits =
    let below : ltb_ℤ count target ≡ true = ground (arith, e) in
    let (now, later) = append-copies buffer mark k fits in
    rw (below, append-fits buffer mark now)
      (count_up_lem f k mark target (count +ℤ pos 1) (buffer ++ mark) (omega arith)
          (omega (arith, e, +ℤ_parts count (pos 1))) later
        ∙ rw (append_assoc buffer mark (copies k mark)) refl)

pub count_down_lem :
    (f k : ℕ) (mark : Text) (target count : ℤ) (buffer : Text)
    → k ≤ f
    → pos_part target + neg_part count + k ≡ pos_part count + neg_part target
    → length buffer + length (copies k mark) < write_size
    → count_down f mark target count buffer ≡ done (target, buffer ++ copies k mark)
unfolding count_down
count_down_lem zero zero mark target count buffer h e fits =
    rw (append-nil buffer, eq_of_parts count target (omega (arith, e))) refl
count_down_lem (suc f) zero mark target count buffer h e fits =
    let here : ltb_ℤ target count ≡ false = ground (arith, e) in
    rw (here, append-nil buffer, eq_of_parts count target (omega (arith, e))) refl
count_down_lem zero (suc k) mark target count buffer h e fits = absurd (omega arith)
count_down_lem (suc f) (suc k) mark target count buffer h e fits =
    let above : ltb_ℤ target count ≡ true = ground (arith, e) in
    let (now, later) = append-copies buffer mark k fits in
    rw (above, append-fits buffer mark now)
      (count_down_lem f k mark target (count -ℤ pos 1) (buffer ++ mark) (omega arith)
          (omega (arith, e, -ℤ_parts count (pos 1))) later
        ∙ rw (append_assoc buffer mark (copies k mark)) refl)

pub count_down-below :
    (f : ℕ) (mark : Text) (target count : ℤ) (buffer : Text)
    → ltb_ℤ count target ≡ true
    → count_down f mark target count buffer ≡ done (count, buffer)
unfolding count_down
count_down-below zero mark target count buffer below = refl
count_down-below (suc f) mark target count buffer below =
    let not_above : ltb_ℤ target count ≡ false = ground (arith, below) in rw not_above refl

-- the loops behind the test that fits them bring the count to the target
pub track_lem :
    (plus minus : Text) (target count : ℤ) (buffer : Text)
    → length buffer + length (marks plus minus target count) < write_size
    → track (ltb_ℤ count target) plus minus target count buffer
      ≡ done (target, buffer ++ marks plus minus target count)
unfolding track
track_lem plus minus target count buffer fits = elim (Bool-cases (ltb_ℤ count target)) [
  | inl up ↦
      let fits' = (rw up at fits) in
      rw up (
        count_up_lem (distance target count) (distance target count) plus target count buffer
          (omega arith) (ground (arith, up)) fits')
  | inr down ↦
      let fits' = (rw down at fits) in
      rw down (
        count_down_lem (distance target count) (distance target count) minus target count buffer
          (omega arith) (ground (arith, down)) fits')
]

pub length-marks :
    (plus minus : Text) (target count : ℤ)
    → length plus ≡ 6
    → length minus ≡ 6
    → length (marks plus minus target count) ≡ 6 * distance target count
length-marks plus minus target count p m = elim (Bool-cases (ltb_ℤ count target)) [
  | inl up ↦ rw up (length-copies (distance target count) plus p)
  | inr down ↦ rw down (length-copies (distance target count) minus m)
]

abbrev pub eliminated_mark : Status → Text
eliminated_mark s = if eqb_ℤ s.eliminated (pos 0) then [] else codes "ELIMI$"

abbrev pub fault_target_marks : Status → ℤ → Text
unfolding ◌+ℤ◌ wrap32
fault_target_marks s faltas = marks (codes "FALT+$") (codes "FALT-$") (all_faults s) faltas

abbrev pub refusal_target_marks : Status → ℤ → Text
refusal_target_marks s rehuses = marks (codes "REHU+$") (codes "REHU-$") s.refusals rehuses
