-- ===== src/Console/Chain.antt =====
-- From a line of the terminal, through the thread of src/console_mgr.c, to the main loop of src/main.c.
use agility_contest_serial_c.Base.{Text, codes}

abbrev pub sc_console : Text
sc_console = codes "user_server"
