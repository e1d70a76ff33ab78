-- ===== src/Model.antt =====
-- pkg/deltaflow/deltaflow.go, delta.go and errors.go: the records, states and errors that the
-- stores and the worker share.
mod Errors
mod Records
unfoldable pub use Errors.*
pub use Records.*
