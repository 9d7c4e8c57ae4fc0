-- ===== src/Public.antt =====
-- src-tauri/src/sync/public.rs: the projection boundary of Phone Sync.
mod Bounded
mod Labels
mod Activity
mod Project
mod Rows
mod Frames
mod Boundary
mod Stream
pub mod Bounds
pub mod Identifiers
pub mod Readings
pub mod Erasure
pub mod Content
pub mod Fits
pub mod Budget
pub mod Pages
pub mod Paths
pub mod Cuts
pub mod Held
pub mod Sessions
pub mod Retained
unfoldable pub use Bounded.*
unfoldable pub use Labels.*
unfoldable pub use Activity.*
unfoldable pub use Project.*
unfoldable pub use Rows.*
unfoldable pub use Frames.*
unfoldable pub use Boundary.*
unfoldable pub use Stream.*
