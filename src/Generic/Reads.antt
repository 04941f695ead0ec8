-- ===== src/Generic/Reads.antt =====
-- What module_read of src/modules/generic.c reads.
use agility_contest_serial_c.Base.{
  ℕ, suc, ◌+◌, ◌-◌, ◌<◌, ◌≤◌, ◌≡◌, refl, ◌∙◌, Bool, true, false, ◌&&◌, ◌||◌, none, some, List, [],
  ◌∷◌, ◌++◌, append_assoc, arith, Text, length, length-append, map, take, take-length, length-take,
  ltb_ℤ, negsuc, ◌==◌, pos, codes, if◌then◌else◌, not,
}
use agility_contest_serial_c.Dispatch.{c_string}
use agility_contest_serial_c.Generic.{
  ReadByte, byte, failed, Reading, waits, ends, last_byte, read_loop, Read, module_read, returned,
}

-- what counts for the buffer: a byte that is no CR, or an error
abbrev counted : ReadByte → ℕ
counted (byte c) = if c == b'\r' then 0 else 1
counted (failed e) = 1

abbrev pub size_of : List ReadByte → ℕ
size_of [] = 0
size_of (r ∷ feed) = counted r + size_of feed

-- the loop has ended within the array
abbrev pub EndsWithin : ℕ → Reading → Type 0
EndsWithin n waits = ⊥
EndsWithin n (ends ret inbuff feed) = length inbuff ≤ n

longer : (before : Text) (c : ℕ) → length (before ++ c ∷ []) ≡ suc (length before)
longer before c = length-append before (c ∷ []) ∙ omega arith

read_loop-ends :
    (feed : List ReadByte) (before : Text) (cr : Bool)
    → length before ≤ last_byte
    → 1022 < length before + size_of feed
    → EndsWithin 1023 (read_loop feed before cr)
unfolding read_loop
read_loop-ends [] before cr h many = absurd (omega arith)
read_loop-ends (failed e ∷ feed) before true h many = omega arith
read_loop-ends (failed e ∷ feed) before false h many = ground (arith, longer before b'\n')
read_loop-ends (byte c ∷ feed) before cr h many =
    let again = read_loop-ends feed before true h in
    let more = read_loop-ends feed (before ++ c ∷ []) false in
    ground (arith, longer before c, longer before b'\n', again, more)

-- `s` holds no CR, no LF and no 0
abbrev pub is_line : Text → Bool
is_line [] = true
is_line (c ∷ s) = not (c == b'\r' || c == b'\n' || c == 0) && is_line s

abbrev pub IsLine : Text → Type 0
IsLine s = is_line s ≡ true

read_loop-line :
    (s before : Text) (cr : Bool) (feed : List ReadByte)
    → IsLine s
    → length before + length s ≤ last_byte
    → read_loop (map byte (s ++ codes "\r\n") ++ feed) before cr
      ≡ ends (pos 0) (before ++ (s ++ codes "\n")) feed
unfolding read_loop
read_loop-line [] before cr feed h fits = ground arith
read_loop-line (c ∷ s) before cr feed h fits =
    let plain = read_loop-line s (before ++ c ∷ []) false feed in
    ground (arith, longer before c, plain, append_assoc before (c ∷ []) (s ++ codes "\n"))

pub c_string-line : (s : Text) → IsLine s → c_string (s ++ codes "\n") ≡ s ++ codes "\n"
unfolding c_string
c_string-line [] h = refl
c_string-line (c ∷ s) h = ground (arith, c_string-line s)

pub module_read_lem :
    (s : Text) (feed : List ReadByte) (size : ℕ)
    → IsLine s
    → length s ≤ last_byte
    → module_read (map byte (s ++ codes "\r\n") ++ feed) size
      ≡ some (record {
        result = pos (length s + 1);
        buffer = some (take (size - 1) (s ++ codes "\n"));
        feed = feed;
      })
unfolding module_read returned
module_read_lem s feed size h fits =
    rw (read_loop-line s [] false feed h (omega arith), module_read)
      (rw (c_string-line s h) (rw (length-append s (codes "\n")) refl))

-- A line of at most 1022 bytes without CR, LF and 0 that the port delivers with CR and LF behind it is
-- read as the line with LF, where the caller's buffer has room for it; what follows stays for the next
-- call.
pub module_read-line :
    (s : Text) (feed : List ReadByte) (size : ℕ)
    → IsLine s
    → length s ≤ last_byte
    → length s + 1 < size
    → module_read (map byte (s ++ codes "\r\n") ++ feed) size
      ≡ some (record { result = pos (length s + 1); buffer = some (s ++ codes "\n"); feed = feed })
module_read-line s feed size h fits room =
    let short : length (s ++ codes "\n") ≡ length s + 1 = length-append s (codes "\n") in
    rw (← take-length (s ++ codes "\n") (size - 1) (omega (arith, short)))
      (module_read_lem s feed size h fits)

c_string-length : (s : Text) → length (c_string s) ≤ length s
unfolding c_string
c_string-length [] = omega arith
c_string-length (c ∷ s) = ground (arith, c_string-length s)

-- An error is negative and leaves the caller's buffer; a line has at most 1023 bytes, and the buffer, which
-- has room for its 0, holds no more than fits.
abbrev pub IsBounded : ℕ → Read → Type 0
IsBounded size r = elim r.buffer [
  | none ↦ ltb_ℤ r.result (pos 0) ≡ true
  | some line ↦ (length line ≤ size - 1) × (n : ℕ) × (r.result ≡ pos n) × (n ≤ 1023)
]

returned-IsBounded :
    (size : ℕ) (reading : Reading)
    → EndsWithin 1023 reading
    → (r : Read) × (returned size reading ≡ some r) × IsBounded size r
unfolding returned
returned-IsBounded size waits h = absurd h
returned-IsBounded size (ends (pos n) inbuff feed') h =
    let line = c_string inbuff in
    (
      record { result = pos (length line); buffer = some (take (size - 1) line); feed = feed' },
      refl,
      (length-take line (size - 1), length line, refl, omega (arith, c_string-length inbuff)),
    )
returned-IsBounded size (ends (negsuc e) inbuff feed') h =
    (record { result = negsuc e; buffer = none; feed = feed' }, refl, ground arith)

-- A call of module_read ends when the port has delivered 1023 bytes that are no CR, errors counted with
-- them: with an error, which leaves the caller's buffer, or with a line of at most 1023 bytes, of which the
-- buffer holds what fits.
pub module_read-ends :
    (feed : List ReadByte) (size : ℕ)
    → 1022 < size_of feed
    → (r : Read) × (module_read feed size ≡ some r) × IsBounded size r
unfolding module_read
module_read-ends feed size many =
    returned-IsBounded size (read_loop feed [] false)
      (read_loop-ends feed [] false (omega arith) (omega (arith, many)))
