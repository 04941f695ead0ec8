-- ===== src/Dispatch/Errors.antt =====
-- Commands that the main loop of src/main.c does not carry out
use agility_contest_serial_c.Base.{
  ℕ, ◌≡◌, ◌≢◌, ◌<◌, refl, true, false, none, some, List, [], ◌∷◌, leb, arith, pos, ltb_ℤ, Text,
  codes, done, fault, ◌⊎◌, inl, inr, str_eq, str_eq_iff, tolower, map, length, ap, ◌∙◌,
}
use agility_contest_serial_c.Tools.{explode}
use agility_contest_serial_c.Parser.{find_index}
use agility_contest_serial_c.MainMgr.{main_mgr_int, main_mgr_stop}
use agility_contest_serial_c.Dispatch.{
  World, Slot, serve, interpret, execute, after_main, c_string, buffer_size, response_main_error,
}

pub index_int : find_index (codes "int") ≡ some 1
unfolding find_index
index_int = refl

pub index_stop : find_index (codes "stop") ≡ some 2
unfolding find_index
index_stop = refl

module _ {A : Type 0} (slots : List (Slot A)) (w : World A) (datagram source cmd : Text)
    (args : List Text) (fits : length datagram < buffer_size)
    (tokens : explode (c_string datagram) b' ' ≡ done (source ∷ cmd ∷ args)) where
  -- a datagram that fits is interpreted by its tokens
  pub serve-interpret :
      serve slots w (some datagram) ≡ interpret slots (c_string datagram) (source ∷ cmd ∷ args) w
  unfolding serve
  serve-interpret =
      let test : leb buffer_size (length datagram) ≡ false = ground arith in rw (test, tokens)

  -- a command of the table is executed at its index
  pub serve-execute :
      {index : ℕ}
      → find_index (map tolower cmd) ≡ some index
      → cmd ≢ []
      → serve slots w (some datagram)
        ≡ execute slots
            (c_string datagram)
            index
            (record { source = source; cmd = map tolower cmd; args = args })
            w
  serve-execute found ne =
      serve-interpret
      ∙ unfold interpret in
        let test : str_eq cmd [] ≡ false = ground (arith, str_eq_iff cmd []) in rw (test, found)

  -- A command that is not empty and not in the table makes the loop read the table in front of its
  -- first entry.
  pub serve-unknown :
      cmd ≢ [] → find_index (map tolower cmd) ≡ none → serve slots w (some datagram) ≡ fault
  serve-unknown ne unknown =
      serve-interpret
      ∙ unfold interpret in
        let test : str_eq cmd [] ≡ false = ground (arith, str_eq_iff cmd []) in rw (test, unknown)

  -- INT and STOP while the chronometer does not run are answered by "main_mgr ERROR": no manager is
  -- called, the state stays as it is and the loop goes on.
  pub serve-not_running :
      (map tolower cmd ≡ codes "int") ⊎ (map tolower cmd ≡ codes "stop")
      → ltb_ℤ w.main.status.start_time (pos 0) ≡ true
      → serve slots w (some datagram)
        ≡ done (record { world = w; response = some response_main_error; loop = true })
  serve-not_running (inl name) stopped =
      serve-execute {index = 1} (rw (name, index_int)) (λ e. cc (name, ap (map tolower) e))
      ∙ unfold execute after_main main_mgr_int in rw stopped
  serve-not_running (inr name) stopped =
      serve-execute {index = 2} (rw (name, index_stop)) (λ e. cc (name, ap (map tolower) e))
      ∙ unfold execute after_main main_mgr_stop in rw stopped
