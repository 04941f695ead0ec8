-- ===== src/Tools/Stripos.antt =====
-- stripos of src/sc_tools.c, and where a text stands in another.
use agility_contest_serial_c.Base.{
  ℕ, suc, ◌+◌, ◌≤◌, ◌≡◌, refl, ap, true, [], ◌∷◌, ◌++◌, arith, Text, length, map, some, toupper,
  pos, Bool-cases, inl, inr,
}
use agility_contest_serial_c.Tools.{match_here, stripos_from, stripos}

-- `needle` stands in `s` behind `i` bytes, in whatever case.
abbrev pub OccursAt : Text → Text → ℕ → Type 0
OccursAt needle s i =
    (before : Text) × (found : Text) × (after : Text) × (s ≡ before ++ found ++ after)
    × (length before ≡ i)
    × (map toupper found ≡ map toupper needle)

match_here_sound :
    (needle s : Text)
    → match_here needle s ≡ true
    → (found : Text) × (after : Text) × (s ≡ found ++ after)
      × (map toupper found ≡ map toupper needle)
unfolding match_here
match_here_sound [] s h = ([], s, refl, refl)
match_here_sound (c ∷ p) [] h = cc
match_here_sound (c ∷ p) (d ∷ s) h =
    let head : toupper d ≡ toupper c = ground arith in
    let (found, after, e, same) = match_here_sound p s (ground arith) in
    (d ∷ found, after, ap (λ x. d ∷ x) e, cc (head, same))

match_here_complete :
    (needle found after : Text)
    → map toupper found ≡ map toupper needle
    → match_here needle (found ++ after) ≡ true
unfolding match_here
match_here_complete [] found after e = refl
match_here_complete (c ∷ p) [] after e = cc
match_here_complete (c ∷ p) (d ∷ s) after e = ground (arith, match_here_complete p s after)

stripos_from_sound :
    (i : ℕ) (needle s : Text) {j : ℕ}
    → stripos_from i needle s ≡ pos j
    → (k : ℕ) × (j ≡ i + k + 1) × OccursAt needle s k
unfolding stripos_from
stripos_from_sound i needle [] h = cc
stripos_from_sound i needle (c ∷ s) h = elim (Bool-cases (match_here needle (c ∷ s))) [
  | inl here ↦
      let (found, after, e, same) = match_here_sound needle (c ∷ s) here in
      (0, ground arith, ([], found, after, e, refl, same))
  | inr there ↦
      let (k, at, (before, found, after, e, count, same)) =
        stripos_from_sound (suc i) needle s (rw there at h) in
      (suc k, omega arith, (c ∷ before, found, after, ap (λ x. c ∷ x) e, ap suc count, same))
]

stripos_from_complete :
    (i c : ℕ) (p before found after : Text)
    → map toupper found ≡ map toupper (c ∷ p)
    → (j : ℕ) × (stripos_from i (c ∷ p) (before ++ found ++ after) ≡ pos (i + j + 1))
      × (j ≤ length before)
unfolding stripos_from
stripos_from_complete i c p [] [] after e = cc
stripos_from_complete i c p [] (d ∷ f) after e =
    (0, rw (match_here_complete (c ∷ p) (d ∷ f) after e) (ground arith), omega arith)
stripos_from_complete i c p (d ∷ b) f after e =
    elim (Bool-cases (match_here (c ∷ p) (d ∷ (b ++ f ++ after)))) [
      | inl here ↦ (0, rw here (ground arith), omega arith)
      | inr there ↦
          let (j, at, le) = stripos_from_complete (suc i) c p b f after e in
          (suc j, rw there (ground (arith, at)), omega arith)
    ]

-- A result j of at least 1 of stripos says that the needle stands in the text, in whatever case,
-- behind j - 1 bytes.
pub stripos_sound :
    (needle s : Text) {j : ℕ}
    → stripos (some s) (some needle) ≡ pos j
    → (k : ℕ) × (j ≡ k + 1) × OccursAt needle s k
unfolding stripos
stripos_sound needle s h = let (k, at, o) = stripos_from_sound 0 needle s h in (k, omega arith, o)

-- Wherever a needle that is not empty stands in the text, in whatever case, stripos finds it there
-- or earlier.
pub stripos_complete :
    (c : ℕ) (p before found after : Text)
    → map toupper found ≡ map toupper (c ∷ p)
    → (j : ℕ) × (stripos (some (before ++ found ++ after)) (some (c ∷ p)) ≡ pos (j + 1))
      × (j ≤ length before)
unfolding stripos
stripos_complete c p before found after e =
    let (j, at, le) = stripos_from_complete 0 c p before found after e in
    (j, ground (arith, at), le)
