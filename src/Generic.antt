-- ===== src/Generic.antt =====
-- src/modules/generic.c and src/modules/dummy.c: module_read and module_write of the modules that speak the
-- protocol of the program itself. The serial port of libserialport is a parameter: what it does with what is
-- written, and what it delivers.
pub mod Lines
pub mod Reads
mod Tests
use agility_contest_serial_c.Base.{
  ℕ, ◌++◌, ltb, if◌then◌else◌, ℤ, pos, Text, codes, toupper, map, take, length, Run, done, fault,
  ◌-◌, ◌==◌, Bool, true, false, Option, none, some, List, [], ◌∷◌, negsuc,
}
use agility_contest_serial_c.Tokens.{Tokens}
use agility_contest_serial_c.Dispatch.{c_string}
use agility_contest_serial_c.Digican.{BlockingWrite, write_size}
use agility_contest_serial_c.Web.{spaced}

-- the message: the command in capitals, and the other tokens with spaces in front
unfoldable pub compose : Tokens → ℕ → Text
unfolding toupper
compose t n = spaced (map toupper t.cmd) (take (n - 2) t.args) ++ codes "\r\n"

-- module_write of generic.c, with a buffer of 1024 bytes: the result and the port
unfoldable pub module_write : {P : Type 0} → BlockingWrite P → P → Tokens → ℕ → Run (ℤ × P)
unfolding compose
module_write sp_blocking_write port t n =
    let buffer = compose t n in
    if ltb (length buffer) write_size then done (sp_blocking_write buffer port) else fault

-- module_write of dummy.c only returns the length
unfoldable pub dummy_write : Tokens → ℕ → Run ℤ
unfolding compose
dummy_write t n =
    let buffer = compose t n in
    if ltb (length buffer) write_size then done (pos (length buffer)) else fault

-- What sp_blocking_read delivers: a byte, or an error. Without a time limit it waits for one of both.
pub data ReadByte : Type 0 where
  byte : ℕ → ReadByte
  failed : ℕ → ReadByte

-- The loop of module_read waits for more, or it has ended: `ret`, the bytes in front of `pt`, and what
-- the port delivers next. Behind `pt` the buffer holds zeros.
pub data Reading : Type 0 where
  waits : Reading
  ends : ℤ → Text → List ReadByte → Reading

-- the index of the last byte that is taken
abbrev pub last_byte : ℕ
last_byte = 1022

-- `before` is what stands in front of `pt`, and `cr` says that a CR stands at it, which an error leaves
-- there: it is then taken for one that was just read.
unfoldable pub read_loop : List ReadByte → Text → Bool → Reading
read_loop [] before cr = waits
read_loop (failed e ∷ feed) before true = ends (negsuc e) before feed
read_loop (failed e ∷ feed) before false =
    if length before == last_byte
    then ends (pos 0) (before ++ b'\n' ∷ []) feed
    else ends (negsuc e) before feed
read_loop (byte c ∷ feed) before cr =
    let again = read_loop feed before true in
    let more = read_loop feed (before ++ c ∷ []) false in
    if c == b'\r'
    then again
    else if length before == last_byte
    then ends (pos 0) (before ++ b'\n' ∷ []) feed
    else if c == b'\n'
    then ends (pos 0) (before ++ c ∷ []) feed
    else more

-- What module_read leaves: its result, the text in the buffer of the caller, if it is written, and what
-- the port delivers next.
pub record Read : Type 0 where
  pub result : ℤ
  pub buffer : Option Text
  pub feed : List ReadByte

-- the result is the length of the line, also where the caller's buffer holds less of it
unfoldable pub returned : ℕ → Reading → Option Read
unfolding c_string
returned size waits = none
returned size (ends (pos n) inbuff feed) =
    let line = c_string inbuff in
    some (record { result = pos (length line); buffer = some (take (size - 1) line); feed = feed })
returned size (ends (negsuc e) inbuff feed) =
    some (record { result = negsuc e; buffer = none; feed = feed })

unfoldable pub module_read : List ReadByte → ℕ → Option Read
unfolding read_loop returned
module_read feed size = returned size (read_loop feed [] false)

-- module_read of dummy.c
unfoldable pub dummy_read : List ReadByte → ℕ → Option Read
dummy_read feed size = some (record { result = pos 0; buffer = some []; feed = feed })
