-- ===== src/Console/Tests.antt =====
-- The console at concrete lines.
use agility_contest_serial_c.Base.{◌≡◌, refl, [], ◌∷◌, ◌++◌, true, codes, strchr, map, done, arith}
use agility_contest_serial_c.Dispatch.{c_string, World}
use agility_contest_serial_c.Tokens.{Tokens}
use agility_contest_serial_c.Samples.{main_0, tokens_of}
use agility_contest_serial_c.Console.Handlers.{Terminal}
use agility_contest_serial_c.Console.{
  first_request, prefix, console_round, console_loop, read_line, strip_newline, send_request, zeros,
}
use agility_contest_serial_c.Console.Lines.{round_of, at_end, console_loop-lines}

console_loop-lines_example :
    console_loop (prefix ++ zeros 1012) (map round_of (codes "help" ∷ [] ∷ codes "ok" ∷ []))
    ≡ done (codes "user_server help" ∷ codes "user_server ok" ∷ [], true)
console_loop-lines_example =
    console_loop-lines (codes "help" ∷ [] ∷ codes "ok" ∷ []) (zeros 1012)
      ((refl, omega arith), ((refl, omega arith), ((refl, omega arith), tt)))

-- the end of the input behind a line sends "exit" without the name of the console, and the loop goes on
ends_behind_line :
    console_loop first_request (round_of (codes "help") ∷ at_end ∷ at_end ∷ [])
    ≡ done (codes "user_server help" ∷ codes "exit" ∷ codes "exit" ∷ [], true)
unfolding console_loop console_round read_line strip_newline send_request c_string strchr
ends_behind_line = refl

abbrev terminal_0 : World Terminal
terminal_0 = record {
  main = main_0;
  app = record { printed = []; ports = []; print_seconds = λ z. [] };
}

abbrev walk_tokens : Tokens
walk_tokens = tokens_of (codes "web_server") (codes "walk") (codes "300" ∷ [])
