-- ===== src/Config.antt =====
-- internal/config/config.go: the configuration file and its validation.
pub mod Schema
pub mod Validate
pub mod Accepted
