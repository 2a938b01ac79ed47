-- ===== src/Io.antt =====
-- src/io/io.c: the task that drives the relays, and the start-up that loads its settings.
pub mod Task
pub mod Init
pub mod Safety
