-- ===== src/Console/Handlers/Quiet.antt =====
-- The handlers of src/console_mgr.c: what a command does at the console.
use agility_contest_serial_c.Base.{
  ℕ, ◌<◌, ◌≡◌, refl, true, false, some, List, [], ◌∷◌, ltb, ℤ, pos, ltb_ℤ, div_ℤ, Text, done, ◌>>=◌,
  length, All, All-get_elem?, Returns, Returns-bind, Any, Bool-cases, Option-cases, inl, inr, arith,
}
use agility_contest_serial_c.Tokens.{Tokens, IsArray, arg}
use agility_contest_serial_c.Parser.{Help, help_for, sc_help, find_command, command_list}
use agility_contest_serial_c.Dispatch.{World}
use agility_contest_serial_c.Console.Handlers.{
  Printed, writes, helps, Terminal, Handler, with_printed, say, number_or, walk_text, down_text,
  console_list, console_entries, console_mgr_start, console_mgr_int, console_mgr_stop,
  console_mgr_fail, console_mgr_ok, console_mgr_msg, console_mgr_walk, console_mgr_down,
  console_mgr_fault, console_mgr_refusal, console_mgr_elim, console_mgr_data, console_mgr_reset,
  console_mgr_help, console_mgr_version, console_mgr_exit, console_mgr_server, console_mgr_ports,
  console_mgr_config, console_mgr_status, console_mgr_numero, console_mgr_bright, console_mgr_clock,
  console_mgr_debug, console_mgr_dorsal,
}

-- a result that is no error, and one thing more that is written
abbrev pub Prints : World Terminal → Tokens → ℤ × World Terminal × Tokens → Type 0
Prints w t (res, w', t') =
    (ltb_ℤ res (pos 0) ≡ false) × ((x : Printed) × (w' ≡ with_printed x w)) × (t' ≡ t)

-- of every command whose array goes with its number of tokens
abbrev pub IsQuiet : Handler → Type 0
IsQuiet handler =
    (w : World Terminal) (t : Tokens) (n : ℕ) → IsArray t n → Returns (Prints w t) (handler w t n)

say-Prints : (s : Text) (w : World Terminal) (t : Tokens) → Returns (Prints w t) (say s w t)
say-Prints s w t = (refl, (writes s, refl), refl)

number_or-Returns :
    (d : ℤ) (f : ℤ → ℤ) (t : Tokens) (n : ℕ) → IsArray t n → Returns Any (number_or d f t n)
unfolding number_or
number_or-Returns d f t n h = ground (arith, h)

abbrev NoError : ℤ × Help → Type 0
NoError (res, help) = ltb_ℤ res (pos 0) ≡ false

help_for-NoError : (a : Text) → NoError (help_for a)
unfolding find_command
help_for-NoError a = elim (Option-cases (find_command a command_list)) [
  | inl out ↦ rw out refl
  | inr (c, found) ↦ rw found refl
]

args-some : (t : Tokens) (n : ℕ) → IsArray t n → ltb 2 n ≡ true → 0 < length t.args
args-some t n h many = ground (arith, h, many)

arg-help_for :
    (args : List Text) → 0 < length args → Returns NoError (arg args >>= λ a. done (help_for a))
unfolding arg
arg-help_for [] h = absurd (omega arith)
arg-help_for (a ∷ args) h = help_for-NoError a

sc_help-Returns : (t : Tokens) (n : ℕ) → IsArray t n → Returns NoError (sc_help t n)
unfolding sc_help
sc_help-Returns t n h = elim (Bool-cases (ltb 2 n)) [
  | inl many ↦ rw many (arg-help_for t.args (args-some t n h many))
  | inr few ↦ rw few refl
]

walk-IsQuiet : IsQuiet console_mgr_walk
unfolding console_mgr_walk
walk-IsQuiet w t n h =
    Returns-bind Any (Prints w t) (number_or (pos 7) (λ z. div_ℤ z 60) t n)
      (λ z. say (walk_text z) w t) (number_or-Returns (pos 7) (λ z. div_ℤ z 60) t n h)
      (λ z u. say-Prints (walk_text z) w t)

down-IsQuiet : IsQuiet console_mgr_down
unfolding console_mgr_down
down-IsQuiet w t n h =
    Returns-bind Any (Prints w t) (number_or (pos 15) (λ z. z) t n) (λ z. say (down_text z) w t)
      (number_or-Returns (pos 15) (λ z. z) t n h) (λ z u. say-Prints (down_text z) w t)

help-IsQuiet : IsQuiet console_mgr_help
unfolding console_mgr_help
help-IsQuiet w t n h =
    Returns-bind _ (Prints w t) (sc_help t n) _ (sc_help-Returns t n h)
      (λ r no_error. (no_error, (helps r.1, refl), refl))

console_list-All : All IsQuiet console_list
unfolding console_mgr_start console_mgr_int console_mgr_stop console_mgr_fail console_mgr_ok
    console_mgr_msg console_mgr_walk console_mgr_down console_mgr_fault console_mgr_refusal
    console_mgr_elim console_mgr_data console_mgr_reset console_mgr_help console_mgr_version
    console_mgr_exit console_mgr_server console_mgr_ports console_mgr_config console_mgr_status
    console_mgr_numero console_mgr_bright console_mgr_clock console_mgr_debug console_mgr_dorsal
console_list-All = (
  (λ w t n h. say-Prints _ w t),
  (
    (λ w t n h. say-Prints _ w t),
    (
      (λ w t n h. say-Prints _ w t),
      (
        (λ w t n h. say-Prints _ w t),
        (
          (λ w t n h. say-Prints _ w t),
          (
            (λ w t n h. say-Prints _ w t),
            (
              walk-IsQuiet,
              (
                down-IsQuiet,
                (
                  (λ w t n h. say-Prints _ w t),
                  (
                    (λ w t n h. say-Prints _ w t),
                    (
                      (λ w t n h. say-Prints _ w t),
                      (
                        (λ w t n h. say-Prints _ w t),
                        (
                          (λ w t n h. say-Prints _ w t),
                          (
                            help-IsQuiet,
                            (
                              (λ w t n h. say-Prints _ w t),
                              (
                                (λ w t n h. say-Prints _ w t),
                                (
                                  (λ w t n h. say-Prints _ w t),
                                  (
                                    (λ w t n h. say-Prints _ w t),
                                    (
                                      (λ w t n h. say-Prints _ w t),
                                      (
                                        (λ w t n h. say-Prints _ w t),
                                        (
                                          (λ w t n h. say-Prints _ w t),
                                          (
                                            (λ w t n h. say-Prints _ w t),
                                            (
                                              (λ w t n h. say-Prints _ w t),
                                              (
                                                (λ w t n h. say-Prints _ w t),
                                                ((λ w t n h. say-Prints _ w t), tt),
                                              ),
                                            ),
                                          ),
                                        ),
                                      ),
                                    ),
                                  ),
                                ),
                              ),
                            ),
                          ),
                        ),
                      ),
                    ),
                  ),
                ),
              ),
            ),
          ),
        ),
      ),
    ),
  ),
)

-- Every command of the console's table with an array that goes with its number of tokens is defined, prints
-- something, returns no error, and changes neither the run nor the configuration nor the tokens.
pub console_entries-Prints :
    (i : ℕ) (handler : Handler) (w : World Terminal) (t : Tokens) (n : ℕ)
    → console_entries i ≡ some handler
    → IsArray t n
    → Returns (Prints w t) (handler w t n)
console_entries-Prints i handler w t n at h =
    All-get_elem? IsQuiet console_list i console_list-All at w t n h
