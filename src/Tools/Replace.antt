-- ===== src/Tools/Replace.antt =====
-- str_replace of src/sc_tools.c: when its loop ends.
use agility_contest_serial_c.Base.{
  ℕ, zero, suc, ◌+◌, ◌-◌, ◌<◌, ◌≤◌, ◌≡◌, refl, ap, ◌∙◌, Bool, true, false, none, some, [], ◌∷◌,
  ◌++◌, arith, Text, length, length-append, drop, starts_with, strstr, Bool-cases, inl, inr, done,
  Option-cases,
}
use agility_contest_serial_c.Tools.{cut, replace_loop, str_replace}

starts_with-drop : (p s : Text) → starts_with p s ≡ true → s ≡ p ++ drop (length p) s
unfolding starts_with
starts_with-drop [] s h = refl
starts_with-drop (c ∷ p) [] h = cc
starts_with-drop (c ∷ p) (d ∷ s) h =
    let same : c ≡ d = ground arith in rw (same, ← starts_with-drop p s (ground arith)) refl

cut-some : (s p : Text) {a b : Text} → cut s p ≡ some (a, b) → s ≡ a ++ p ++ b
unfolding cut starts_with
cut-some [] [] h = ground arith
cut-some [] (c ∷ p) h = ground arith
cut-some (c ∷ s) p {a} {b} h = elim (Bool-cases (starts_with p (c ∷ s))) [
  | inl here ↦
      let e : some ([], drop (length p) (c ∷ s)) ≡ some (a, b) = rw here at h in
      starts_with-drop p (c ∷ s) here ∙ cc e
  | inr there ↦ elim (Option-cases (cut s p)) [
    | inl out ↦ (let e : none ≡ some (a, b) = rw (there, out) at h in cc e)
    | inr ((x, y), found) ↦
        let e : some (c ∷ x, y) ≡ some (a, b) = rw (there, found) at h in
        ap (λ t. c ∷ t) (cut-some s p found) ∙ cc e
  ]
]

cut-none : (s p : Text) → cut s p ≡ none → strstr s p ≡ false
unfolding cut strstr
cut-none [] p h = ground arith
cut-none (c ∷ s) p h = ground (arith, cut-none s p)

-- a text that is found is cut out
strstr-cut : (s p : Text) → strstr s p ≡ true → (a : Text) × (b : Text) × (cut s p ≡ some (a, b))
strstr-cut s p h = elim (Option-cases (cut s p)) [
  | inl out ↦ cc (h, cut-none s p out)
  | inr ((a, b), found) ↦ (a, b, found)
]

starts_with-append : (p s t : Text) → starts_with p s ≡ true → starts_with p (s ++ t) ≡ true
unfolding starts_with
starts_with-append [] s t h = refl
starts_with-append (c ∷ p) [] t h = cc
starts_with-append (c ∷ p) (d ∷ s) t h = ground (arith, starts_with-append p s t)

strstr-front : (s p t : Text) → starts_with p (s ++ t) ≡ true → strstr (s ++ t) p ≡ true
unfolding strstr
strstr-front [] p [] h = h
strstr-front [] p (c ∷ t) h = rw h refl
strstr-front (c ∷ s) p t h = rw h refl

strstr-left : (s t p : Text) → strstr s p ≡ true → strstr (s ++ t) p ≡ true
unfolding strstr
strstr-left [] t p h = strstr-front [] p t (starts_with-append p [] t h)
strstr-left (c ∷ s) t p h = elim (Bool-cases (starts_with p (c ∷ s))) [
  | inl here ↦ rw (starts_with-append p (c ∷ s) t here) refl
  | inr there ↦ ground (arith, strstr-left s t p, h)
]

strstr-right : (s t p : Text) → strstr t p ≡ true → strstr (s ++ t) p ≡ true
unfolding strstr
strstr-right [] t p h = h
strstr-right (c ∷ s) t p h = ground (arith, strstr-right s t p h)

length-append_three : (a p b : Text) → length (a ++ p ++ b) ≡ length a + length p + length b
length-append_three a p b = length-append (a ++ p) b ∙ ap (λ k. k + length b) (length-append a p)

module _ (malloc : ℕ → Bool) (enough : (n : ℕ) → malloc n ≡ true) (p r : Text) where
  replace_loop-ends :
      (f : ℕ) (s : Text)
      → length s < f
      → length r < length p
      → (t : Text) × (replace_loop f malloc s p r ≡ some (some t))
        × (strstr t p ≡ false)
        × (length t ≤ length s)
  unfolding replace_loop
  replace_loop-ends zero s h shorter = absurd (omega arith)
  replace_loop-ends (suc f) s h shorter = elim (Option-cases (cut s p)) [
    | inl out ↦ (s, rw (out, replace_loop) refl, cut-none s p out, omega arith)
    | inr ((a, b), found) ↦
        let size : length s ≡ length a + length p + length b =
          ap length (cut-some s p found) ∙ length-append_three a p b in
        let size' = length-append_three a r b in
        let (t, ends, out, le) =
          replace_loop-ends f (a ++ r ++ b) (omega (arith, size, size')) shorter in
        (
          t,
          rw (found, replace_loop) (rw (enough (length s - length p + length r + 1)) ends),
          out,
          omega (arith, size, size'),
        )
  ]

  replace_loop-runs :
      (f : ℕ) (s : Text)
      → strstr r p ≡ true
      → strstr s p ≡ true
      → replace_loop f malloc s p r ≡ none
  unfolding replace_loop
  replace_loop-runs zero s h occurs = refl
  replace_loop-runs (suc f) s h occurs =
      let (a, b, found) = strstr-cut s p occurs in
      let again = strstr-left (a ++ r) b p (strstr-right a r p h) in
      rw (found, replace_loop)
        (rw (enough (length s - length p + length r + 1))
          (replace_loop-runs f (a ++ r ++ b) h again))

  -- When the replacement is shorter than the text that is searched for, and strdup and malloc succeed,
  -- str_replace ends after at most one round for each byte of the string and one more; its result is
  -- not longer than the string and the text that is searched for does not stand in it.
  pub str_replace-ends :
      (s : Text)
      → length r < length p
      → (t : Text) × (str_replace true (suc (length s)) malloc s (some p) (some r)
          ≡ done (some (some t)))
        × (strstr t p ≡ false)
        × (length t ≤ length s)
  unfolding str_replace
  str_replace-ends s shorter =
      let (t, ends, out, le) = replace_loop-ends (suc (length s)) s (omega arith) shorter in
      (t, rw ends refl, out, le)

  -- When the text that is searched for stands in its replacement and in the string, and strdup and
  -- malloc succeed, the loop of str_replace is still running after any number of rounds.
  pub str_replace-runs :
      (f : ℕ) (s : Text)
      → strstr r p ≡ true
      → strstr s p ≡ true
      → str_replace true f malloc s (some p) (some r) ≡ done none
  unfolding str_replace
  str_replace-runs f s h occurs = rw (replace_loop-runs f s h occurs) refl
