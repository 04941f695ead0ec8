-- ===== src/Ajax/Turn.antt =====
-- TURN without an argument, which src/main_mgr.c accepts, at the handler of src/ajax_mgr.c.
use agility_contest_serial_c.Base.{
  List, ◌≡◌, ◌≢◌, ◌<◌, ◌∙◌, refl, ap, true, false, some, [], ◌∷◌, Text, codes, str_eq, str_eq_iff,
  tolower, map, length, done, fault, arith,
}
use agility_contest_serial_c.Tools.{explode}
use agility_contest_serial_c.Parser.{find_index}
use agility_contest_serial_c.MainMgr.{main_mgr_numero}
use agility_contest_serial_c.Tokens.{arg}
use agility_contest_serial_c.Dispatch.{
  World, Slot, serve, execute, after_main, send_all, send_to, c_string, buffer_size,
}
use agility_contest_serial_c.Dispatch.Errors.{serve-execute}
use agility_contest_serial_c.Ajax.{sc_ajax, Curl}
use agility_contest_serial_c.Ajax.Handlers.{ajax_entries, ajax_mgr_turn}

index_turn : find_index (codes "turn") ≡ some 20
unfolding find_index
index_turn = refl

-- the thread of the server is the only one
abbrev pub ajax_slots : {N : Type 0} → Curl N → List (Slot N)
ajax_slots curl = record { alive = true; entries = some (ajax_entries curl) } ∷ []

-- TURN without an argument from another source, when only the thread of the server is alive, makes its
-- handler read through the null pointer behind the tokens.
pub serve-turn_fault :
    {N : Type 0} (curl : Curl N) (w : World N) (datagram source cmd : Text)
    → length datagram < buffer_size
    → explode (c_string datagram) b' ' ≡ done (source ∷ cmd ∷ [])
    → map tolower cmd ≡ codes "turn"
    → source ≢ sc_ajax
    → serve (ajax_slots curl) w (some datagram) ≡ fault
unfolding execute after_main main_mgr_numero send_all send_to ajax_mgr_turn arg
serve-turn_fault curl w datagram source cmd fits tokens turn other =
    let foreign : str_eq sc_ajax source ≡ false = ground (arith, str_eq_iff sc_ajax source) in
    serve-execute (ajax_slots curl) w datagram source cmd [] fits tokens {index = 20}
      (rw (turn, index_turn) refl) (λ e. cc (turn, ap (map tolower) e))
    ∙ rw foreign refl
