-- ===== src/Codex.antt =====
-- src-tauri/src/codex_engine.rs: the client of the Codex app-server.
pub mod Json
pub mod Sanitize
pub mod Params
pub mod Nodes
pub mod Queue
pub mod Waiting
pub mod Items
pub mod Turns
pub mod Policy
pub mod Room
pub mod Enqueue
pub mod Trim
pub mod Shape
pub mod Walk
pub mod Redaction
pub mod Secrets
pub mod Bounds
pub mod Protection
unfoldable pub use Json.*
unfoldable pub use Sanitize.*
unfoldable pub use Nodes.*
unfoldable pub use Params.*
unfoldable pub use Queue.*
unfoldable pub use Waiting.*
