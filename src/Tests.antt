-- ===== src/Tests.antt =====
-- Concrete inputs: a sample of the external crates, the properties at inputs that meet their
-- hypotheses, and runs of the definitions.
mod Sample
mod Projection
mod Live
mod Protocol
mod Trust
mod Frames
mod Deferral
mod Patches
mod Commands
