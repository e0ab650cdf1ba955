-- ===== src/Commands.antt =====
-- The commands: what flags and arguments they take, and what they run.
pub mod Expander
pub mod Flags
pub mod Interfaces
