-- ===== src/Reader/Loop.antt =====
-- The loop of the threads of src/serial_mgr.c and src/net_mgr.c: what they send, and when they end.
use agility_contest_serial_c.Base.{
  ℕ, ◌+◌, ◌<◌, ◌≡◌, refl, Bool, true, false, ◌&&◌, ◌||◌, not, Option, none, some, List, [], ◌∷◌,
  ◌++◌, leb, if◌then◌else◌, Text, take, length, done, All, arith, Bool-cases, inl, inr,
}
use agility_contest_serial_c.Reader.{
  Round, Outcome, prefix, request_size, strip_newline, answered, forward, add, reader_round,
  reader_loop,
}

-- the text that was read, up to its newline; empty where there is none
abbrev pub line_of : Round → Text
line_of r = elim r.heard [ none ↦ [] | some (n, text) ↦ strip_newline (take n text) ]

abbrev has_line : Round → Bool
has_line r = not (leb (length (line_of r)) 0)

-- a line was read, and it cannot be sent, or it is answered when the index of the slot is negative
abbrev pub is_last : Round → Bool
is_last r = has_line r && (not r.sent || (elim r.received [ none ↦ false | some n ↦ r.exits ]))

abbrev pub is_none_last : List Round → Bool
is_none_last [] = true
is_none_last (r ∷ rounds) = not (is_last r) && is_none_last rounds

-- the name in front of every line
abbrev pub requests : Text → List Round → List Text
requests self [] = []
requests self (r ∷ rounds) =
    if has_line r then (prefix self ++ line_of r) ∷ requests self rounds else requests self rounds

module _ (self : Text) where
  abbrev HeardFits : Option (ℕ × Text) → Type 0
  HeardFits none = Unit
  HeardFits (some (n, text)) = length (prefix self) + n < request_size

  abbrev ReceivedFits : Option ℕ → Type 0
  ReceivedFits none = Unit
  ReceivedFits (some n) = n < request_size

  -- what is read and what is received leaves room for the 0 behind it
  abbrev pub Fits : Round → Type 0
  Fits r = HeardFits r.heard × ReceivedFits r.received

  abbrev outcome : Round → Outcome
  outcome r =
      (if has_line r && r.sent then some (prefix self ++ line_of r) else none, not (is_last r))

  round_lem :
      (heard : Option (ℕ × Text)) (s : Bool) (a : Option ℕ) (x : Bool)
      → let r : Round = record { heard = heard; sent = s; received = a; exits = x } in
        Fits r → reader_round self r ≡ done (outcome r)
  unfolding reader_round forward answered
  round_lem none s a x h = refl
  round_lem (some (n, text)) s none x h = ground arith
  round_lem (some (n, text)) s (some k) x h = ground arith

  reader_round_lem : (r : Round) → Fits r → reader_round self r ≡ done (outcome r)
  reader_round_lem r h = round_lem r.heard r.sent r.received r.exits h

  -- When what is read and what is received leaves room for the 0 behind it in every round, the loop is
  -- defined, and it has ended behind the rounds exactly if one of them is the last: a line was read that
  -- could not be sent, or that was answered when the index of the slot was negative. Errors of the module
  -- and rounds without a line never end it.
  pub reader_loop-is_none_last :
      (rounds : List Round)
      → All Fits rounds
      → (sent : List Text) × (reader_loop self rounds ≡ done (sent, is_none_last rounds))
  unfolding reader_loop
  reader_loop-is_none_last [] h = ([], refl)
  reader_loop-is_none_last (r ∷ rounds) h =
      let (sent, runs) = reader_loop-is_none_last rounds h.1 in
      elim (Bool-cases (is_last r)) [
        | inl last ↦ (add (outcome r).0 [], rw (reader_round_lem r h.0) (rw last refl))
        | inr more ↦ (add (outcome r).0 sent, rw (reader_round_lem r h.0) (rw more (rw runs refl)))
      ]

  -- no round is the last, and what is read can be sent
  abbrev pub IsSent : Round → Type 0
  IsSent r = Fits r × (r.sent ≡ true) × (is_last r ≡ false)

  -- As long as every line can be sent and no round is the last, the loop sends each line that is read,
  -- with the name of the manager in front, in the order of reading and nothing else, and it goes on.
  pub reader_loop-requests :
      (rounds : List Round)
      → All IsSent rounds
      → reader_loop self rounds ≡ done (requests self rounds, true)
  unfolding reader_loop
  reader_loop-requests [] h = refl
  reader_loop-requests (r ∷ rounds) h =
      let (fits, sent, more) = h.0 in
      let rest = reader_loop-requests rounds h.1 in
      elim (Bool-cases (has_line r)) [
        | inl line ↦ rw (reader_round_lem r fits) (rw (more, line, sent) (rw rest refl))
        | inr silent ↦ rw (reader_round_lem r fits) (rw (more, silent) (rw rest refl))
      ]
