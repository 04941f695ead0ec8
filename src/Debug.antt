-- ===== src/Debug.antt =====
-- The debug level of src/debug.c. What debug_print writes is output only.
use agility_contest_serial_c.Base.{
  arith, if◌then◌else◌, ℤ, pos, ltb_ℤ, ◌≤ℤ◌, Bool, true, false, Option, none, some, eqb_ℤ,
}
use agility_contest_serial_c.Config.{Configuration}

-- set_debug_level: the level that is stored
unfoldable pub set_debug_level : ℤ → ℤ
set_debug_level level =
    let low = if ltb_ℤ level (pos 0) then pos 0 else level in
    if ltb_ℤ (pos 8) low then pos 8 else low

-- debug_level, and whether debug_stderr and debug_file are set
pub record DebugState : Type 0 where
  pub level : ℤ
  pub to_stderr : Bool
  pub to_file : Bool

-- debug_init, where `opened` tells that fopen succeeded
unfoldable pub debug_init : Bool → Option Configuration → DebugState → DebugState × ℤ
unfolding set_debug_level
debug_init opened none s = (record s { level = pos 3; to_stderr = true }, pos 0)
debug_init opened (some c) s =
    let quiet = eqb_ℤ c.verbose (pos 0) in
    if opened
    then (
      record {
        level = set_debug_level c.loglevel;
        to_stderr = if quiet then false else true;
        to_file = true;
      },
      pos 0,
    )
    else (
      record { level = set_debug_level c.loglevel; to_stderr = true; to_file = false },
      ℤ.negsuc 0,
    )

-- the test of debug_print: a message of this level is written
unfoldable pub prints : DebugState → ℤ → Bool
prints s level = if ltb_ℤ s.level level then false else true

-- The level that is stored is from 0 to 8.
pub set_debug_level_bounds :
    (level : ℤ) → (pos 0 ≤ℤ set_debug_level level) × (set_debug_level level ≤ℤ pos 8)
unfolding set_debug_level
set_debug_level_bounds level = ground arith
