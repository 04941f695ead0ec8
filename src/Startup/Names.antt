-- ===== src/Startup/Names.antt =====
-- The name of the client that src/main.c leaves.
use agility_contest_serial_c.Base.{
  ℕ, ◌≡◌, ◌≢◌, refl, false, List, [], ◌∷◌, ◌==◌, ==_iff, Text, done, arith, Bool-cases, inl, inr,
}
use agility_contest_serial_c.Config.{Configuration}
use agility_contest_serial_c.Tools.Explode.{IsToken}
use agility_contest_serial_c.Startup.{
  Opt, Parsed, goes_on, usage, wrong, Start, returns, loops, Outside, fix_name, isalnum,
  parse_cmdline, check_license, start_threads, loop_with, run_parsed, startup,
}

-- no letter, no digit and no `_`
abbrev pub IsPunctuation : ℕ → Type 0
IsPunctuation sep = (isalnum sep ≡ false) × (sep ≢ b'_')

fix_name-IsToken : (sep : ℕ) (s : Text) → IsPunctuation sep → IsToken sep (fix_name s)
unfolding fix_name
fix_name-IsToken sep [] p = refl
fix_name-IsToken sep (c ∷ s) p = elim (Bool-cases (isalnum c)) [
  | inl alnum ↦ elim (Bool-cases (c == sep)) [
    | inl same ↦ absurd (cc (alnum, (==_iff c sep).0 same, p.0))
    | inr other ↦ ground (arith, fix_name-IsToken sep s p, alnum, other, p)
  ]
  | inr not_alnum ↦ ground (arith, fix_name-IsToken sep s p, not_alnum, p)
]

-- the name behind the start is the one in front
abbrev Kept : Configuration → Start → Type 0
Kept c (returns res) = Unit
Kept c (loops c' ts) = c'.client_name ≡ c.client_name

start_threads-Kept :
    (o : Outside) (c : Configuration) {s : Start} → start_threads o c ≡ done s → Kept c s
unfolding start_threads check_license loop_with
start_threads-Kept o c h = ground arith

-- the name that the loop starts with does not hold `sep`
abbrev pub Named : ℕ → Start → Type 0
Named sep (returns res) = Unit
Named sep (loops c ts) = IsToken sep c.client_name

Kept-Named :
    (sep : ℕ) (c : Configuration) (s : Start) → Kept c s → IsToken sep c.client_name → Named sep s
Kept-Named sep c (returns res) k h = tt
Kept-Named sep c (loops c' ts) k h = rw k h

run_parsed-Named :
    (sep : ℕ) (o : Outside) (p : Parsed) (s : Start)
    → IsPunctuation sep
    → run_parsed o p ≡ done s
    → Named sep s
unfolding run_parsed
run_parsed-Named sep o (goes_on c) s p e =
    let c' = record c { client_name = fix_name c.client_name } in
    Kept-Named sep c' s (start_threads-Kept o c' e) (fix_name-IsToken sep c.client_name p)
run_parsed-Named sep o usage (returns res) p e = tt
run_parsed-Named sep o usage (loops c ts) p e = absurd (ground arith)
run_parsed-Named sep o wrong (returns res) p e = tt
run_parsed-Named sep o wrong (loops c ts) p e = absurd (ground arith)

-- Whatever the command line says, when the loop is entered the name of the client holds no character but
-- letters, digits and `_`.
pub startup-Named :
    (sep : ℕ) (o : Outside) (c : Configuration) (options : List Opt) (s : Start)
    → IsPunctuation sep
    → startup o c options ≡ done s
    → Named sep s
unfolding startup
startup-Named sep o c options s p e = run_parsed-Named sep o (parse_cmdline c options) s p e
