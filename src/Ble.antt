-- ===== src/Ble.antt =====
-- src/bitchat/bitchat_ble.cpp: the building blocks of its packets, the ring that they are received in, and
-- their relay.
pub mod Tlv
pub mod Padding
pub mod Packet
pub mod Identity
pub mod Peers
pub mod Queue
pub mod Relay
pub mod Send
pub mod Handle
pub mod Incoming
pub mod Session
pub mod Fragments
pub mod Scenes
mod Tests
mod PacketTests
mod SessionTests
