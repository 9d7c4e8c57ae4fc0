-- ===== src/Wire.antt =====
-- The wire types of crates/portcode-sync: wire.rs (Receipt, Message, Event) and protocol.rs (Frame).
-- `serde_json::Value` is third-party: the types take it as the parameter `Value`.
mod Receipt
mod Message
mod Event
mod Frame
pub use Receipt.*
pub use Message.*
pub use Event.*
pub use Frame.*
