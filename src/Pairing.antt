-- ===== src/Pairing.antt =====
-- Device trust: src-tauri/src/sync/pairing_gate.rs, the table of paired devices of src-tauri/src/db.rs,
-- and the commands and the connection task of src-tauri/src/lib.rs that use them.
mod Gate
mod Devices
mod Serve
pub mod Rows
pub mod Gating
pub mod Steps
pub mod Trusted
pub mod Trust
pub mod Waiting
unfoldable pub use Gate.*
unfoldable pub use Devices.*
unfoldable pub use Serve.*
