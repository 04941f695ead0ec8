-- ===== src/Dispatch/Datagrams.antt =====
-- Datagrams of the threads at the main loop of src/main.c: a source, a command and its arguments with spaces between
-- them.
use agility_contest_serial_c.Base.{
  ℕ, ◌<◌, ◌≤◌, ◌≡◌, ◌≢◌, refl, some, List, [], ◌∷◌, ◌++◌, Text, length, map, done, All, arith,
  tolower, ap, ◌∙◌,
}
use agility_contest_serial_c.Tools.{explode, max_tokens}
use agility_contest_serial_c.Tools.Explode.{join, IsToken, explode-join}
use agility_contest_serial_c.Parser.{find_index}
use agility_contest_serial_c.Generic.Reads.{IsLine}
use agility_contest_serial_c.Dispatch.{World, Slot, serve, execute, c_string, buffer_size}
use agility_contest_serial_c.Dispatch.Errors.{serve-execute}

pub c_string-IsLine : (s : Text) → IsLine s → c_string s ≡ s
unfolding c_string
c_string-IsLine [] h = refl
c_string-IsLine (c ∷ s) h = ground (arith, c_string-IsLine s)

pub IsLine-append : (s t : Text) → IsLine s → IsLine t → IsLine (s ++ t)
IsLine-append [] t hs ht = ht
IsLine-append (c ∷ s) t hs ht = ground (arith, IsLine-append s t)

pub join-some : (cmd : Text) (args : List Text) → cmd ≢ [] → 0 < length (join b' ' (cmd ∷ args))
unfolding join
join-some [] args ne = absurd (ne refl)
join-some (c ∷ s) [] ne = omega arith
join-some (c ∷ s) (a ∷ args) ne = omega arith

-- the tokens of a command
abbrev pub command_of : Text → Text → List Text → List Text
command_of source cmd args = source ∷ cmd ∷ args

-- what the loop does with a command of the table
abbrev pub IsServed :
    {A : Type 0} → List (Slot A) → World A → Text → ℕ → Text → Text → List Text → Type 0
IsServed slots w datagram index source cmd args =
    serve slots w (some datagram)
    ≡ execute slots datagram index (record { source = source; cmd = map tolower cmd; args = args })
        w

-- A command of the table with its source and its arguments, at most 32 tokens without spaces, CR, LF and 0 and
-- less than 500 bytes long, is executed with these arguments.
pub serve-join :
    {A : Type 0} (slots : List (Slot A)) (w : World A) (source cmd : Text) (args : List Text)
    {index : ℕ}
    → All (IsToken b' ') (command_of source cmd args)
    → IsLine (join b' ' (command_of source cmd args))
    → length (command_of source cmd args) ≤ max_tokens
    → length (join b' ' (command_of source cmd args)) < buffer_size
    → cmd ≢ []
    → find_index (map tolower cmd) ≡ some index
    → IsServed slots w (join b' ' (command_of source cmd args)) index source cmd args
serve-join slots w source cmd args tokens plain few short ne found =
    let datagram = join b' ' (command_of source cmd args) in
    let whole = c_string-IsLine datagram plain in
    let parts : explode (c_string datagram) b' ' ≡ done (command_of source cmd args) =
      ap (λ (s : Text). explode s b' ') whole ∙ explode-join b' ' source (cmd ∷ args) tokens few in
    let executes = serve-execute slots w datagram source cmd args short parts found ne in
    rw whole at executes
