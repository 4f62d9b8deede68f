-- ===== src/Bridge.antt =====
-- The bridge of src/bridge: messages, deduplication, names, virtual identities, chunks, and the
-- manager that ties them together.
pub mod Message
pub mod Dedup
pub mod Names
pub mod Registry
pub mod Chunks
pub mod Manager
mod Tests
