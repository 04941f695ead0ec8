-- ===== src/Tools/Explode.antt =====
-- explode of src/sc_tools.c against a plain definition of splitting
use agility_contest_serial_c.Base.{
  ℕ, suc, ◌+◌, ◌≤◌, ◌≡◌, refl, ap, ◌∙◌, Bool, true, false, ◌&&◌, List, [], ◌∷◌, ◌++◌, arith, ◌==◌,
  ltb, leb, if◌then◌else◌, Text, length, All, Run, done, fault, append_assoc, append-nil, ==_iff,
  sym, Bool-cases, inl, inr,
}
use agility_contest_serial_c.Tools.{explode_from, explode, max_tokens}

abbrev pub cons_head : ℕ → List Text → List Text
cons_head c [] = (c ∷ []) ∷ []
cons_head c (t ∷ ts) = (c ∷ t) ∷ ts

-- the parts of a text between separators
unfoldable pub split : ℕ → Text → List Text
split sep [] = [] ∷ []
split sep (c ∷ s) = if c == sep then [] ∷ split sep s else cons_head c (split sep s)

-- the parts with a separator between any two
unfoldable pub join : ℕ → List Text → Text
join sep [] = []
join sep (t ∷ []) = t
join sep (t ∷ u ∷ ts) = t ++ sep ∷ join sep (u ∷ ts)

abbrev prepend : Text → List Text → List Text
prepend p [] = p ∷ []
prepend p (t ∷ ts) = (p ++ t) ∷ ts

abbrev is_token : ℕ → Text → Bool
is_token sep [] = true
is_token sep (c ∷ s) = (if c == sep then false else true) && is_token sep s

-- `t` holds no separator
abbrev pub IsToken : ℕ → Text → Type 0
IsToken sep t = is_token sep t ≡ true

split-cons : (sep : ℕ) (s : Text) → (t : Text) × (ts : List Text) × (split sep s ≡ t ∷ ts)
unfolding split
split-cons sep [] = ([], [], refl)
split-cons sep (c ∷ s) =
    let (t, ts, e) = split-cons sep s in
    elim (Bool-cases (c == sep)) [
      | inl at ↦ ([], t ∷ ts, rw (at, e))
      | inr away ↦ (c ∷ t, ts, rw (away, e))
    ]

join-cons_head :
    (sep c : ℕ) (t : Text) (ts : List Text) → join sep ((c ∷ t) ∷ ts) ≡ c ∷ join sep (t ∷ ts)
unfolding join
join-cons_head sep c t [] = refl
join-cons_head sep c t (u ∷ ts) = refl

join-nil : (sep : ℕ) (t : Text) (ts : List Text) → join sep ([] ∷ t ∷ ts) ≡ sep ∷ join sep (t ∷ ts)
unfolding join
join-nil sep t ts = refl

-- Joining the parts gives the text back.
pub join-split : (sep : ℕ) (s : Text) → join sep (split sep s) ≡ s
unfolding split
join-split sep [] = unfold join in refl
join-split sep (c ∷ s) =
    let (t, ts, e) = split-cons sep s in
    let same : join sep (t ∷ ts) ≡ s = (rw (← e) (join-split sep s)) in
    elim (Bool-cases (c == sep)) [
      | inl at ↦
          rw (at, e)
            (join-nil sep t ts
              ∙ ap (λ x. sep ∷ x) same
              ∙ ap (λ x. x ∷ s) (sym ((==_iff c sep).0 at)))
      | inr away ↦ rw (away, e) (join-cons_head sep c t ts ∙ ap (λ x. c ∷ x) same)
    ]

-- No part holds a separator.
pub split-IsToken : (sep : ℕ) (s : Text) → All (IsToken sep) (split sep s)
unfolding split
split-IsToken sep [] = (refl, tt)
split-IsToken sep (c ∷ s) =
    let (t, ts, e) = split-cons sep s in
    let rest : All (IsToken sep) (t ∷ ts) = (rw e at (split-IsToken sep s)) in
    elim (Bool-cases (c == sep)) [
      | inl at ↦ rw (at, e) (refl, rest)
      | inr away ↦ rw (away, e) ((rw away (rest.0)), rest.1)
    ]

abbrev explode_result : ℕ → List Text → Run (List Text)
explode_result n ts = if leb (n + length ts) max_tokens then done ts else fault

explode_from-split :
    (sep n : ℕ) (token s : Text)
    → n ≤ max_tokens
    → explode_from sep n token s ≡ explode_result n (prepend token (split sep s))
unfolding explode_from split
explode_from-split sep n token [] h = rw append-nil (ground arith)
explode_from-split sep n token (c ∷ s) h =
    let (t, ts, e) = split-cons sep s in
    elim (Bool-cases (c == sep)) [
      | inl at ↦
          rw (at, e)
            (elim (Bool-cases (ltb n max_tokens)) [
              | inl room ↦
                  let next = explode_from-split sep (suc n) [] s (ground arith) in
                  rw (room, next, e, append-nil) (ground arith)
              | inr full ↦ rw full (ground arith)
            ])
      | inr away ↦
          let next = explode_from-split sep n (token ++ c ∷ []) s h in
          rw (away, next, e, append_assoc) refl
    ]

-- explode returns the parts of the line, and writes behind its array exactly when there are more
-- than 32 of them.
pub explode-split :
    (line : Text) (sep : ℕ)
    → explode line sep
      ≡ (if leb (length (split sep line)) max_tokens then done (split sep line) else fault)
unfolding explode
explode-split line sep =
    let (t, ts, e) = split-cons sep line in
    rw (explode_from-split sep 0 [] line (omega arith), e) (ground arith)

-- Splitting what stands before a separator.
pub split-token : (sep : ℕ) (t : Text) → IsToken sep t → split sep t ≡ t ∷ []
unfolding split
split-token sep [] h = refl
split-token sep (c ∷ t) h = ground (arith, split-token sep t)

not-IsToken : (sep c : ℕ) (t : Text) → (c == sep) ≡ true → ¬ IsToken sep (c ∷ t)
not-IsToken sep c t at h = ground arith

pub split-append :
    (sep : ℕ) (t s : Text) → IsToken sep t → split sep (t ++ sep ∷ s) ≡ t ∷ split sep s
unfolding split
split-append sep [] s h = rw ((==_iff sep sep).1 refl)
split-append sep (c ∷ t) s h = elim (Bool-cases (c == sep)) [
  | inl at ↦ absurd (not-IsToken sep c t at h)
  | inr away ↦ rw (away, split-append sep t s (rw away at h))
]

join_step :
    (sep : ℕ) (t u : Text) (ts : List Text) → join sep (t ∷ u ∷ ts) ≡ t ++ sep ∷ join sep (u ∷ ts)
unfolding join
join_step sep t u ts = refl

-- Tokens that hold no separator come back when they are joined and split.
pub split-join :
    (sep : ℕ) (t : Text) (ts : List Text)
    → All (IsToken sep) (t ∷ ts)
    → split sep (join sep (t ∷ ts)) ≡ t ∷ ts
split-join sep t [] h = unfold join in split-token sep t h.0
split-join sep t (u ∷ ts) h =
    ap (split sep) (join_step sep t u ts)
    ∙ split-append sep t (join sep (u ∷ ts)) h.0
    ∙ ap (λ x. t ∷ x) (split-join sep u ts h.1)

-- Tokens without the separator, at most 32 of them, that are joined by it are taken apart again.
pub explode-join :
    (sep : ℕ) (t : Text) (ts : List Text)
    → All (IsToken sep) (t ∷ ts)
    → length (t ∷ ts) ≤ max_tokens
    → explode (join sep (t ∷ ts)) sep ≡ done (t ∷ ts)
explode-join sep t ts tokens room =
    let small : leb (length (t ∷ ts)) max_tokens ≡ true = ground (arith, room) in
    explode-split (join sep (t ∷ ts)) sep ∙ rw (split-join sep t ts tokens, small) refl
