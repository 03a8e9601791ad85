-- ===== src/Cmd.antt =====
-- src/cmd.
pub mod Sweep
