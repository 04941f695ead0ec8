-- ===== src/MainMgr/Tests.antt =====
-- The theorems on the handlers of the main manager at concrete commands.
use agility_contest_serial_c.Base.{
  ◌≡◌, refl, [], ◌∷◌, true, pos, ◌-ℤ◌, ltb_ℤ, IsInt, wrap32, Text, codes, atoi, strtol, skip_space,
  isspace, isdigit, signed_digits, digits_from, Returns, arith,
}
use agility_contest_serial_c.Tokens.{Tokens, ntokens}
use agility_contest_serial_c.MainMgr.{Main, main_mgr_fault}
use agility_contest_serial_c.MainMgr.Valid.{Kept, main_mgr_entries-IsValid}
use agility_contest_serial_c.Samples.{config_0, main_0, main_0-IsValid, tokens_of}

abbrev minus_fault : Tokens
minus_fault = tokens_of (codes "web") (codes "fault") (codes "-" ∷ [])

main_mgr_entries-IsValid_example :
    Returns Kept (main_mgr_fault main_0 minus_fault (ntokens minus_fault))
main_mgr_entries-IsValid_example =
    main_mgr_entries-IsValid 8 main_mgr_fault main_0 minus_fault (omega arith) refl main_0-IsValid

abbrev data_tokens : Text → Tokens
data_tokens a = tokens_of (codes "web") (codes "data") (a ∷ [])

-- a run with two touches
abbrev touched : Main
touched = record main_0 {
  config = record config_0 { status = record config_0.status { touchs = pos 2 } };
}

five_in_range : IsInt (atoi (codes "5") -ℤ touched.status.touchs)
unfolding atoi ◌-ℤ◌ wrap32 strtol skip_space isspace isdigit signed_digits digits_from
five_in_range = ground arith

one_in_range : IsInt (atoi (codes "1") -ℤ touched.status.touchs)
unfolding atoi ◌-ℤ◌ wrap32 strtol skip_space isspace isdigit signed_digits digits_from
one_in_range = ground arith

one_less : ltb_ℤ (atoi (codes "1")) touched.status.touchs ≡ true
unfolding atoi wrap32 strtol skip_space isspace isdigit signed_digits digits_from
one_less = refl
