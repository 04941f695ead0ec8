-- ===== src/MainMgr.antt =====
-- src/main_mgr.c: what each command does to the state of the run. The messages that the handlers log
-- are not modelled.
pub mod Valid
pub mod Data
mod Tests
use agility_contest_serial_c.Base.{
  ℕ, ◌+◌, none, some, List, [], ◌∷◌, ◌==◌, if◌then◌else◌, ℤ, pos, negsuc, ◌+ℤ◌, ◌-ℤ◌, ltb_ℤ, eqb_ℤ,
  wrap32, Text, codes, str_eq, strchr, atoi, strtol, Run, done, fault, ◌>>=◌,
}
use agility_contest_serial_c.Config.{Configuration, Status}
use agility_contest_serial_c.Debug.{set_debug_level}
use agility_contest_serial_c.Tokens.{Tokens, arg}

-- What the handlers change: the configuration and the debug level.
pub record Main : Type 0 where
  pub config : Configuration
  pub open config use {status}
  pub debug_level : ℤ

abbrev pub Handler : Type 0
Handler = Main → Tokens → ℕ → Run (ℤ × Main)

abbrev with_status : Main → Status → Main
with_status m s = record m { config = record m.config { status = s } }

abbrev pub ok : Main → Run (ℤ × Main)
ok m = done (pos 0, m)

abbrev pub failed : Main → Run (ℤ × Main)
failed m = done (negsuc 0, m)

-- `int` sums, which wrap where they overflow
abbrev pub int_add : ℤ → ℤ → ℤ
int_add a b = wrap32 (a +ℤ b)

abbrev pub int_sub : ℤ → ℤ → ℤ
int_sub a b = wrap32 (a -ℤ b)

abbrev at_least_0 : ℤ → ℤ
at_least_0 z = if ltb_ℤ z (pos 0) then pos 0 else z

abbrev at_most_9 : ℤ → ℤ
at_most_9 z = if ltb_ℤ (pos 9) z then pos 9 else z

unfoldable pub main_mgr_start : Handler
unfolding arg strtol
main_mgr_start m t n =
    if n == 2
    then ok (with_status m (record m.status { start_time = pos 0 }))
    else do a ← arg t.args; ok (with_status m (record m.status { start_time = strtol a }))

unfoldable pub main_mgr_int : Handler
unfolding arg strtol
main_mgr_int m t n =
    if ltb_ℤ m.status.start_time (pos 0)
    then failed m
    else if n == 2
    then failed m
    else do a ← arg t.args; ok (with_status m (record m.status { int_time = strtol a }))

unfoldable pub main_mgr_stop : Handler
unfolding arg strtol
main_mgr_stop m t n =
    if ltb_ℤ m.status.start_time (pos 0)
    then failed m
    else if n == 2
    then failed m
    else do a ← arg t.args; ok (with_status m (record m.status { stop_time = strtol a }))

-- main_mgr_fail, _ok, _msg, _walk, _down, _help, _version, _exit, _server, _ports, _config, _status,
-- _clock and _dorsal do nothing but log
unfoldable pub main_mgr_log : Handler
main_mgr_log m t n = ok m

abbrev plus : Text
plus = codes "+"

abbrev minus : Text
minus = codes "-"

-- the counters that an argument of FAULT leaves, before they are clamped: faults and touches
unfoldable pub count_faults : ℤ → ℤ → Text → ℤ × ℤ
unfolding str_eq atoi ◌+ℤ◌ ◌-ℤ◌ wrap32
count_faults faults touchs a =
    if str_eq a plus
    then (int_add faults (pos 1), touchs)
    else if str_eq a minus
    then (if ltb_ℤ (pos 0) faults
        then (int_sub faults (pos 1), touchs)
        else if ltb_ℤ (pos 0) touchs
        then (faults, int_sub touchs (pos 1))
        else (faults, touchs))
    else (int_sub (atoi a) touchs, touchs)

-- the end of main_mgr_fault
unfoldable pub set_faults : Main → ℤ × ℤ → Run (ℤ × Main)
set_faults m (f, c) =
    ok (with_status m (record m.status { faults = at_least_0 f; touchs = at_least_0 c }))

unfoldable pub main_mgr_fault : Handler
unfolding arg count_faults set_faults
main_mgr_fault m t n =
    if n == 3
    then (do a ← arg t.args; set_faults m (count_faults m.status.faults m.status.touchs a))
    else set_faults m (int_add m.status.faults (pos 1), m.status.touchs)

-- the counter that an argument `+`, `-` or a number leaves, before it is clamped; `turn`, `refusal`
-- and `bright` have this test in common
unfoldable pub count_arg : ℤ → Text → ℤ
unfolding str_eq atoi ◌+ℤ◌ ◌-ℤ◌ wrap32
count_arg z a =
    if str_eq a plus
    then int_add z (pos 1)
    else if str_eq a minus
    then int_sub z (pos 1)
    else atoi a

unfoldable pub counted : ℤ → Tokens → ℕ → Run ℤ
unfolding arg count_arg
counted z t n =
    if n == 3 then (do a ← arg t.args; done (count_arg z a)) else done (int_add z (pos 1))

unfoldable pub main_mgr_refusal : Handler
unfolding counted
main_mgr_refusal m t n = do
  z ← counted m.status.refusals t n
  ok (with_status m (record m.status { refusals = at_least_0 z }))

unfoldable pub elim_arg : Text → ℤ
unfolding str_eq atoi
elim_arg a =
    if str_eq a plus
    then pos 1
    else if str_eq a minus
    then pos 0
    else if eqb_ℤ (atoi a) (pos 0)
    then pos 0
    else pos 1

unfoldable pub main_mgr_elim : Handler
unfolding arg elim_arg
main_mgr_elim m t n =
    if n == 3
    then (do a ← arg t.args; ok (with_status m (record m.status { eliminated = elim_arg a })))
    else ok (with_status m (record m.status { eliminated = pos 1 }))

-- strchr(s, ':') where the result is written through without a test for NULL
unfoldable pub cut_colon : Text → Run (Text × Text)
unfolding strchr
cut_colon s = elim (strchr s b':') [ none ↦ fault | some parts ↦ done parts ]

unfoldable pub main_mgr_data : Handler
unfolding arg cut_colon atoi ◌-ℤ◌ wrap32
main_mgr_data m t n = if n == 2 then failed m else do
  a ← arg t.args
  (str, more) ← cut_colon a
  (pt, pt2) ← cut_colon more
  ok (
      with_status m (record m.status {
        faults = int_sub (atoi str) m.status.touchs;
        refusals = atoi pt;
        eliminated = if eqb_ℤ (atoi pt2) (pos 0) then pos 0 else pos 1;
      }))

unfoldable pub main_mgr_reset : Handler
main_mgr_reset m t n = ok (
    with_status m (record m.status {
      start_time = negsuc 0;
      int_time = pos 0;
      stop_time = pos 0;
      faults = pos 0;
      touchs = pos 0;
      refusals = pos 0;
      eliminated = pos 0;
      notpresent = pos 0;
    }))

unfoldable pub main_mgr_numero : Handler
unfolding counted
main_mgr_numero m t n = do
  z ← counted m.status.numero t n
  ok (with_status m (record m.status { numero = at_least_0 z }))

unfoldable pub main_mgr_bright : Handler
unfolding counted
main_mgr_bright m t n = do
  z ← counted m.config.bright t n
  ok (record m { config = record m.config { bright = at_most_9 (at_least_0 z) } })

unfoldable pub main_mgr_debug : Handler
unfolding arg atoi set_debug_level
main_mgr_debug m t n =
    if n == 3
    then (do a ← arg t.args; ok (record m { debug_level = set_debug_level (atoi a) }))
    else ok m

-- The table, at the index of each command; what follows in its array is NULL.
abbrev pub main_mgr_entries : List Handler
main_mgr_entries =
    main_mgr_start ∷ main_mgr_int ∷ main_mgr_stop ∷ main_mgr_log ∷ main_mgr_log ∷ main_mgr_log
    ∷ main_mgr_log ∷ main_mgr_log ∷ main_mgr_fault ∷ main_mgr_refusal ∷ main_mgr_elim
    ∷ main_mgr_data ∷ main_mgr_reset ∷ main_mgr_log ∷ main_mgr_log ∷ main_mgr_log ∷ main_mgr_log
    ∷ main_mgr_log ∷ main_mgr_log ∷ main_mgr_log ∷ main_mgr_numero ∷ main_mgr_bright ∷ main_mgr_log
    ∷ main_mgr_debug ∷ main_mgr_log ∷ []
