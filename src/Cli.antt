-- ===== src/Cli.antt =====
-- internal/cli: the run command.
pub mod Run
pub mod Heartbeat
