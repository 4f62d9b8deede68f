-- ===== src/Proto.antt =====
-- src/meshtastic/mesh_proto.h: the hand-written protobuf codec.
pub mod Varint
pub mod Field
pub mod Encode
pub mod Loop
pub mod Report
pub mod Parse
mod Tests
