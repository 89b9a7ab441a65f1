-- ===== src/Autoconf.antt =====
-- Autoconfiguration (src/autoconf*.c): the channels and their PIDs are read from the tables.
pub mod Channel
pub mod Pat
