-- ===== src/Parser/Tests.antt =====
-- The search of a command at concrete names.
