-- ===== src/Tokens/Tests.antt =====
-- A default argument at a concrete command.
use agility_contest_serial_c.Base.{[], codes}
use agility_contest_serial_c.Tokens.{Tokens}
use agility_contest_serial_c.Samples.{tokens_of}

abbrev walk : Tokens
walk = tokens_of (codes "web") (codes "walk") []
