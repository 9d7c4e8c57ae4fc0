-- ===== src/Session.antt =====
-- The session protocol of Phone Sync: crates/portcode-sync/src/session.rs, and the desktop's side of
-- catch-up in src-tauri/src/sync/session.rs.
mod Transport
mod Exchange
mod Loops
pub mod Agreement
pub mod Intake
unfoldable pub use Transport.*
unfoldable pub use Exchange.*
unfoldable pub use Loops.*
