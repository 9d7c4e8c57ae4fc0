-- ===== src/Remote.antt =====
-- src-tauri/src/sync/server.rs: `DesktopCommandHandler`, which runs the commands of a phone, with the
-- statements of src-tauri/src/db.rs that it uses on rows in memory.
mod Messages
pub mod State
pub mod Handler
pub mod Answers
pub mod Creates
pub mod Newest
pub mod Pages
unfoldable pub use Messages.*
unfoldable pub use State.*
unfoldable pub use Handler.*
