-- ===== src/Review.antt =====
-- src-tauri/src/git_review.rs: what git prints, parsed into a review. Running git is not modelled.
pub mod Types
pub mod Text
pub mod Patch
pub mod Records
pub mod Changes
pub mod Quote
pub mod Unquote
pub mod Decoding
pub mod Porcelain
pub mod Headers
pub mod Numbering
pub mod Anchors
pub mod Reference
unfoldable pub use Types.*
unfoldable pub use Patch.*
unfoldable pub use Records.*
unfoldable pub use Quote.*
