-- ===== src/Dispatch/Tests.antt =====
-- The theorems on the main loop at concrete datagrams.
use agility_contest_serial_c.Base.{
  ◌≡◌, refl, [], ◌∷◌, none, some, true, false, pos, Text, codes, str_eq, tolower, map, done,
  Returns, ◌↔◌, ◌⊎◌, arith, ltb_ℤ, All,
}
use agility_contest_serial_c.Tools.{explode, explode_from, stripos}
use agility_contest_serial_c.Parser.{find_index, find_from}
use agility_contest_serial_c.Config.{default_options}
use agility_contest_serial_c.MainMgr.Valid.{IsValid}
use agility_contest_serial_c.Dispatch.{
  Served, c_string, serve, after_main, served_slots, send_all, send_to, finish, has_exit,
  response_ok,
}
use agility_contest_serial_c.Dispatch.Valid.{serve-IsValid, SlotKeeps}
use agility_contest_serial_c.Dispatch.Ends.{after_main-loop, serving, HoldsExit}
use agility_contest_serial_c.Samples.{config_0, main_0, world_0, slots_0, main_0-IsValid, tokens_of}

abbrev fault_text : Text
fault_text = codes "console Fault +"

fault_text_tokens :
    explode (c_string fault_text) b' ' ≡ done (codes "console" ∷ codes "Fault" ∷ codes "+" ∷ [])
unfolding explode explode_from c_string
fault_text_tokens = refl

fault_found : find_index (map tolower (codes "Fault")) ≡ some 8
unfolding find_index find_from tolower str_eq
fault_found = refl

slots_0-Keeps : All (SlotKeeps 8) (served_slots slots_0)
slots_0-Keeps = ((λ w t n v a. (v, a)), tt)

serve-IsValid_example :
    Returns (λ r. IsValid r.world.main) (serve slots_0 world_0 (some fault_text))
serve-IsValid_example =
    serve-IsValid slots_0 world_0 fault_text (codes "console") (codes "Fault") (codes "+" ∷ []) 8
      (omega arith) fault_text_tokens fault_found (omega arith) slots_0-Keeps main_0-IsValid

abbrev exit_text : Text
exit_text = codes "console msg the exit"

abbrev exit_served : Served (Unit {0})
exit_served = record { world = world_0; response = some response_ok; loop = false }

exit_run :
    after_main slots_0 exit_text 5
      (tokens_of (codes "console") (codes "msg") [])
      world_0
      (pos 0, main_0)
    ≡ done exit_served
unfolding after_main send_all send_to finish has_exit stripos
exit_run = refl

after_main-loop_example :
    (exit_served.loop ≡ false) ↔ ((serving (served_slots slots_0) ≡ 0) ⊎ HoldsExit exit_text)
after_main-loop_example =
    after_main-loop slots_0 exit_text 5 (tokens_of (codes "console") (codes "msg") []) world_0
      (pos 0) main_0 {r = exit_served} refl exit_run

abbrev unknown_text : Text
unknown_text = codes "console jump"

unknown_tokens : explode (c_string unknown_text) b' ' ≡ done (codes "console" ∷ codes "jump" ∷ [])
unfolding explode explode_from c_string
unknown_tokens = refl

unknown_missing : find_index (map tolower (codes "jump")) ≡ none
unfolding find_index find_from tolower str_eq
unknown_missing = refl

abbrev stop_text : Text
stop_text = codes "console STOP 12"

stop_tokens :
    explode (c_string stop_text) b' ' ≡ done (codes "console" ∷ codes "STOP" ∷ codes "12" ∷ [])
unfolding explode explode_from c_string
stop_tokens = refl

stop_lower : map tolower (codes "STOP") ≡ codes "stop"
unfolding tolower
stop_lower = refl

idle : ltb_ℤ world_0.main.status.start_time (pos 0) ≡ true
unfolding config_0 default_options
idle = refl
