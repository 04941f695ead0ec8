-- ===== src/Console/Lines.antt =====
-- The thread of src/console_mgr.c: what it sends for the lines that are typed, and what it does at their end.
use agility_contest_serial_c.Base.{
  ℕ, zero, suc, ◌+◌, ◌<◌, ◌≡◌, refl, true, false, Option, none, some, List, [], ◌∷◌, ◌++◌, leb,
  Text, codes, strchr, drop, map, length, length-append, All, done, arith,
}
use agility_contest_serial_c.Dispatch.{c_string}
use agility_contest_serial_c.Generic.Reads.{IsLine}
use agility_contest_serial_c.Console.{
  add, prefix, Round, store, read_line, strip_newline, send_request, console_round, console_loop,
  first_request,
}

-- a line that is typed, sent and answered
abbrev pub round_of : Text → Round
round_of line = record {
  typed = some (line ++ codes "\n");
  sent = true;
  received = some 2;
  exits = false;
}

-- a line that fits into the buffer behind the name
abbrev pub IsTyped : Text → Type 0
IsTyped line = IsLine line × (length line < 1011)

-- the lines that are not empty, behind the name of the console
abbrev pub requests : List Text → List Text
requests [] = []
requests ([] ∷ ls) = requests ls
requests ((c ∷ s) ∷ ls) = (prefix ++ (c ∷ s)) ∷ requests ls

abbrev pub at_end : Round
at_end = record { typed = none; sent = true; received = some 2; exits = false }

c_string-end : (s t : Text) → IsLine s → c_string (s ++ (0 ∷ t)) ≡ s
unfolding c_string
c_string-end [] t h = refl
c_string-end (c ∷ s) t h = ground (arith, c_string-end s t)

c_string-typed : (s t : Text) → IsLine s → c_string (s ++ (b'\n' ∷ 0 ∷ t)) ≡ s ++ codes "\n"
unfolding c_string
c_string-typed [] t h = refl
c_string-typed (c ∷ s) t h = ground (arith, c_string-typed s t)

strchr-typed : (s : Text) → IsLine s → strchr (s ++ codes "\n") b'\n' ≡ some (s, [])
unfolding strchr
strchr-typed [] h = refl
strchr-typed (c ∷ s) h = ground (arith, strchr-typed s)

-- the byte behind `s` is overwritten
store-behind : (s t : Text) (c d : ℕ) → store (length s) (d ∷ []) (s ++ (c ∷ t)) ≡ s ++ (d ∷ t)
store-behind [] t c d = refl
store-behind (b ∷ s) t c d = ground (arith, store-behind s t c d)

strip_newline-typed :
    (s t : Text) → IsLine s → strip_newline (s ++ (b'\n' ∷ 0 ∷ t)) ≡ s ++ (0 ∷ 0 ∷ t)
unfolding strip_newline
strip_newline-typed s t h =
    rw (c_string-typed s t h, strip_newline)
      (rw (strchr-typed s h, strip_newline) (store-behind s (0 ∷ t) b'\n' 0))

typed-append : (s t : Text) → ((s ++ codes "\n") ++ 0 ∷ []) ++ t ≡ s ++ (b'\n' ∷ 0 ∷ t)
typed-append [] t = refl
typed-append (c ∷ s) t = ground (arith, typed-append s t)

-- what a line leaves of the buffer behind its newline and its 0
abbrev behind : Text → Text → Text
behind line buffer = drop (12 + length ((line ++ codes "\n") ++ 0 ∷ [])) buffer

read_line-typed :
    (line rest : Text)
    → IsTyped line
    → read_line (prefix ++ rest) (some (line ++ codes "\n"))
      ≡ done (prefix ++ (line ++ (b'\n' ∷ 0 ∷ behind line (prefix ++ rest))))
unfolding read_line
read_line-typed line rest (h, short) =
    let fits : leb 1024 (12 + length (line ++ codes "\n")) ≡ false =
      ground (arith, length-append line (codes "\n")) in
    rw fits (rw (typed-append line (behind line (prefix ++ rest))) refl)

console_round-empty :
    (rest : Text)
    → (rest' : Text) × (console_round (prefix ++ rest) (round_of [])
        ≡ done (none, prefix ++ rest', true))
unfolding console_round read_line strip_newline c_string strchr
console_round-empty rest = (0 ∷ 0 ∷ behind [] (prefix ++ rest), refl)

pub console_round-line :
    (c : ℕ) (s rest : Text)
    → IsTyped (c ∷ s)
    → (rest' : Text) × (console_round (prefix ++ rest) (round_of (c ∷ s))
        ≡ done (some (prefix ++ (c ∷ s)), prefix ++ rest', true))
unfolding console_round send_request
console_round-line c s rest (h, short) =
    let line = c ∷ s in
    let left = behind line (prefix ++ rest) in
    let strips = strip_newline-typed (prefix ++ line) left h in
    let holds = c_string-end line (0 ∷ left) h in
    let some_text : leb (length line) 0 ≡ false = ground arith in
    (
      line ++ (0 ∷ 0 ∷ left),
      rw (read_line-typed line rest (h, short)) (rw strips (rw holds (rw some_text refl))),
    )

console_loop-round :
    (b b' : Text) (r : Round) (rs : List Round) (d : Option Text) (sent : List Text)
    → console_round b r ≡ done (d, b', true)
    → console_loop b' rs ≡ done (sent, true)
    → console_loop b (r ∷ rs) ≡ done (add d sent, true)
unfolding console_loop
console_loop-round b b' r rs d sent round later = rw round (rw later refl)

-- With its name at the front of its buffer, and from lines that fit behind it, each of which is sent and
-- answered, the console sends every line that is not empty behind its name, in order, and goes on.
pub console_loop-lines :
    (ls : List Text) (rest : Text)
    → All IsTyped ls
    → console_loop (prefix ++ rest) (map round_of ls) ≡ done (requests ls, true)
unfolding console_loop
console_loop-lines [] rest h = refl
console_loop-lines ([] ∷ ls) rest h =
    let (rest', round) = console_round-empty rest in
    console_loop-round (prefix ++ rest) (prefix ++ rest') (round_of []) (map round_of ls) none
      (requests ls) round (console_loop-lines ls rest' h.1)
console_loop-lines ((c ∷ s) ∷ ls) rest h =
    let (rest', round) = console_round-line c s rest h.0 in
    console_loop-round (prefix ++ rest) (prefix ++ rest') (round_of (c ∷ s)) (map round_of ls)
      (some (prefix ++ (c ∷ s))) (requests ls) round (console_loop-lines ls rest' h.1)

abbrev pub ends : ℕ → List Round
ends zero = []
ends (suc n) = at_end ∷ ends n

-- the buffer once the end of the input has been seen in front of any line
abbrev ended : Text
ended = store 0 (codes "exit" ++ 0 ∷ []) first_request

ended-stays : (n : ℕ) → console_loop ended (ends n) ≡ done ([], true)
unfolding console_loop console_round read_line strip_newline send_request c_string strchr
ended-stays zero = refl
ended-stays (suc n) = rw (ended-stays n) refl

-- When the input ends in front of any line, the console sends nothing and its loop never ends, however often it
-- reads the end of the input.
pub console_loop-ends : (n : ℕ) → console_loop first_request (ends n) ≡ done ([], true)
unfolding console_loop console_round read_line strip_newline send_request c_string strchr
console_loop-ends zero = refl
console_loop-ends (suc n) = rw (ended-stays n) refl
