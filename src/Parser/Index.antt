-- ===== src/Parser/Index.antt =====
-- The search of a command by its name (src/main.c, over the table of src/parser.c)
use mathlib.Core.Path.{subst}
use mathlib.Core.Option.{some-injective}
use agility_contest_serial_c.Base.{
  ℕ, zero, suc, ◌+◌, ◌≡◌, refl, Bool, true, false, not, ◌&&◌, some, List, [], ◌∷◌, arith, Text,
  str_eq, str_eq_iff, str_eq_refl, get_elem?, Bool-cases, inl, inr, ◌↔◌, ap, sym, ◌∙◌,
}
use agility_contest_serial_c.Parser.{Command, command_list, find_from, find_index}

-- the names differ from each other
abbrev fresh : Text → List Command → Bool
fresh s [] = true
fresh s (c ∷ cs) = not (str_eq c.cmd s) && fresh s cs

abbrev distinct : List Command → Bool
distinct [] = true
distinct (c ∷ cs) = fresh c.cmd cs && distinct cs

find_from_sound :
    (n : ℕ) (s : Text) (cs : List Command) {k : ℕ}
    → find_from n s cs ≡ some k
    → (i : ℕ) × (c : Command) × (k ≡ n + i) × (get_elem? cs i ≡ some c) × (c.cmd ≡ s)
unfolding find_from
find_from_sound n s [] h = cc
find_from_sound n s (c ∷ cs) h = elim (Bool-cases (str_eq c.cmd s)) [
  | inl here ↦ (0, c, ground arith, refl, (str_eq_iff c.cmd s).0 here)
  | inr there ↦
      let (i, d, at, got, same) = find_from_sound (suc n) s cs (rw there at h) in
      (suc i, d, omega arith, got, same)
]

fresh-get_elem? :
    (s : Text) (cs : List Command) (i : ℕ) {c : Command}
    → fresh s cs ≡ true
    → get_elem? cs i ≡ some c
    → str_eq c.cmd s ≡ false
fresh-get_elem? s [] i h e = cc
fresh-get_elem? s (d ∷ cs) zero h e = ground arith
fresh-get_elem? s (d ∷ cs) (suc i) h e = fresh-get_elem? s cs i (ground arith) e

str_eq_comm : (s t : Text) → str_eq s t ≡ str_eq t s
str_eq_comm s t = ground (arith, str_eq_iff s t, str_eq_iff t s)

find_from_complete :
    (n : ℕ) (cs : List Command) (i : ℕ) {c : Command}
    → distinct cs ≡ true
    → get_elem? cs i ≡ some c
    → find_from n c.cmd cs ≡ some (n + i)
unfolding find_from
find_from_complete n [] i d e = cc
find_from_complete n (b ∷ cs) zero {c} d e =
    let same : c ≡ b = sym (some-injective b c e) in rw (same, str_eq_refl) (ground arith)
find_from_complete n (b ∷ cs) (suc i) {c} d e =
    let other : str_eq b.cmd c.cmd ≡ false =
      str_eq_comm b.cmd c.cmd ∙ fresh-get_elem? b.cmd cs i (ground arith) e in
    rw (other, find_from_complete (suc n) cs i (ground arith) e) (ground arith)

command_list-distinct : distinct command_list ≡ true
unfolding str_eq
command_list-distinct = refl

-- The search finds a name exactly at the position where the table holds it.
pub find_index_iff :
    (s : Text) (i : ℕ)
    → (find_index s ≡ some i) ↔ ((c : Command) × (get_elem? command_list i ≡ some c) × (c.cmd ≡ s))
unfolding find_index
find_index_iff s i = (
  λ h.
      let (k, c, at, got, same) = find_from_sound 0 s command_list h in
      (c, subst (λ x. get_elem? command_list x ≡ some c) {x = k} {y = i} (omega arith) got, same),
  λ (c, got, same).
      rw (← same)
        (find_from_complete 0 command_list i command_list-distinct got ∙ ap some (omega arith)),
)
