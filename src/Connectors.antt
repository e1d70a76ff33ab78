-- ===== src/Connectors.antt =====
-- pkg/connectors: what the durable stores share.
pub mod Prepare
pub mod Violations
