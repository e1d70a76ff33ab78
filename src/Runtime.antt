-- ===== src/Runtime.antt =====
-- pkg/runtime: the registry of projectors and appliers, the resolution of a pipeline, and the runner.
pub mod Registry
pub mod Resolution
pub mod Runner
pub mod Building
pub mod Running
