-- ===== src/Ajax/Handlers.antt =====
-- src/ajax_mgr.c: the handlers, which put an event for each command.
use agility_contest_serial_c.Base.{
  ℕ, ◌-◌, Bool, true, false, Option, none, some, List, [], ◌∷◌, ◌++◌, ◌==◌, ltb, if◌then◌else◌, ℤ,
  pos, negsuc, ◌+ℤ◌, wrap64, Text, codes, str_eq, atoi, strtol, length, get_elem?, drop, take, Run,
  done, fault, ◌>>=◌,
}
use agility_contest_serial_c.Config.{Status}
use agility_contest_serial_c.Tokens.{Tokens, arg}
use agility_contest_serial_c.Dispatch.{World, ManagerHandler}
use agility_contest_serial_c.Events.{shown}
use agility_contest_serial_c.Ajax.{sc_ajax, Extra, value_only, print_time, Curl, ajax_put_event}

-- The time that is sent: with 1 added, as 0 is no value for the server.
unfoldable pub time_text : (Status → ℤ) → Status → Text
unfolding print_time wrap64 ◌+ℤ◌
time_text time s = print_time (wrap64 (pos 1 +ℤ time s))

module _ {N : Type 0} (curl : Curl N) where
  -- the result 0 for what the manager itself has sent
  abbrev unless_ajax : ManagerHandler N → ManagerHandler N
  unfolding str_eq
  unless_ajax handler w t n = if str_eq sc_ajax t.source then done (pos 0, w, t) else handler w t n

  -- `return ajax_put_event(...)`
  unfoldable pub put : Text → Option Extra → Bool → World N → Tokens → Run (ℤ × World N × Tokens)
  unfolding ajax_put_event
  put type extra flag w t = do
    (res, net) ← ajax_put_event curl w.main.config type extra flag w.app
    done (res, record w { app = net }, t)

  abbrev put_time : Text → (Status → ℤ) → ManagerHandler N
  unfolding put time_text
  put_time type time w t n = put type (some (value_only (time_text time w.main.status))) false w t

  unfoldable pub ajax_mgr_start : ManagerHandler N
  unfolding str_eq put time_text
  ajax_mgr_start = unless_ajax (put_time (codes "crono_start") (λ s. s.start_time))

  unfoldable pub ajax_mgr_int : ManagerHandler N
  unfolding str_eq put time_text
  ajax_mgr_int = unless_ajax (put_time (codes "crono_int") (λ s. s.int_time))

  unfoldable pub ajax_mgr_stop : ManagerHandler N
  unfolding str_eq put time_text
  ajax_mgr_stop = unless_ajax (put_time (codes "crono_stop") (λ s. s.stop_time))

  unfoldable pub ajax_mgr_fail : ManagerHandler N
  unfolding str_eq put
  ajax_mgr_fail =
      unless_ajax (λ w t n. put (codes "crono_error") (some (value_only (codes "1"))) false w t)

  unfoldable pub ajax_mgr_ok : ManagerHandler N
  unfolding str_eq put
  ajax_mgr_ok =
      unless_ajax (λ w t n. put (codes "crono_error") (some (value_only (codes "0"))) false w t)

  -- the words behind the first two, each with an encoded space in front
  abbrev spaced_words : List Text → Text
  spaced_words [] = []
  spaced_words (a ∷ rest) = codes "%20" ++ a ++ spaced_words rest

  -- `seconds:message` in a buffer of 512 bytes; tokens that are not there are NULL
  unfoldable pub message_text : Tokens → ℕ → Text
  message_text t n =
      shown (get_elem? t.args 0)
      ++ codes ":"
      ++ shown (get_elem? t.args 1)
      ++ spaced_words (drop 2 (take (n - 2) t.args))

  unfoldable pub ajax_mgr_msg : ManagerHandler N
  unfolding str_eq put message_text
  ajax_mgr_msg = unless_ajax (λ w t n.
      let text = message_text t n in
      if ltb (length text) 512
      then put (codes "command")
          (some (record {
            oper = codes "8";
            value = text;
            start = pos 0;
            stop = pos 0;
            tiempo = pos 0;
          }))
          false w t
      else fault)

  abbrev walk_for : ℤ → Option Extra
  walk_for seconds =
      some (record { oper = []; value = []; start = seconds; stop = pos 0; tiempo = pos 0 })

  unfoldable pub ajax_mgr_walk : ManagerHandler N
  unfolding str_eq put arg strtol
  ajax_mgr_walk = unless_ajax (λ w t n.
      if n == 3
      then (do a ← arg t.args; put (codes "crono_rec") (walk_for (strtol a)) false w t)
      else put (codes "crono_rec") (walk_for (pos 420)) false w t)

  unfoldable pub ajax_mgr_down : ManagerHandler N
  unfolding str_eq put arg
  ajax_mgr_down = unless_ajax (λ w t n.
      if n == 3
      then (do a ← arg t.args; put (codes "salida") (some (value_only a)) true w t)
      else put (codes "salida") (some (value_only (codes "15"))) true w t)

  abbrev with_dorsal : World N → ℤ → World N
  with_dorsal w d = record w {
    main = record w.main {
      config = record w.main.config { status = record w.main.config.status { dorsal = d } };
    };
  }

  unfoldable pub ajax_mgr_turn : ManagerHandler N
  unfolding str_eq put arg atoi
  ajax_mgr_turn =
      unless_ajax
        (λ w t n. do a ← arg t.args; put (codes "llamada") none true (with_dorsal w (atoi a)) t)

  unfoldable pub ajax_mgr_data : ManagerHandler N
  unfolding str_eq put
  ajax_mgr_data = unless_ajax (λ w t n. put (codes "crono_dat") none true w t)

  unfoldable pub ajax_mgr_reset : ManagerHandler N
  unfolding str_eq put
  ajax_mgr_reset = unless_ajax (λ w t n. put (codes "crono_reset") none false w t)

  unfoldable pub ajax_mgr_exit : ManagerHandler N
  ajax_mgr_exit w t n = done (negsuc 0, w, t)

  -- the table, NULL behind its end
  abbrev pub ajax_list : List (Option (ManagerHandler N))
  ajax_list =
      some ajax_mgr_start
      ∷ some ajax_mgr_int
      ∷ some ajax_mgr_stop
      ∷ some ajax_mgr_fail
      ∷ some ajax_mgr_ok
      ∷ some ajax_mgr_msg
      ∷ some ajax_mgr_walk
      ∷ some ajax_mgr_down
      ∷ some ajax_mgr_data
      ∷ some ajax_mgr_data
      ∷ some ajax_mgr_data
      ∷ some ajax_mgr_data
      ∷ some ajax_mgr_reset
      ∷ none
      ∷ none
      ∷ some ajax_mgr_exit
      ∷ none
      ∷ none
      ∷ none
      ∷ none
      ∷ some ajax_mgr_turn
      ∷ none
      ∷ none
      ∷ none
      ∷ none
      ∷ []

  abbrev pub ajax_entries : ℕ → Option (ManagerHandler N)
  ajax_entries i = elim (get_elem? ajax_list i) [ none ↦ none | some e ↦ e ]
