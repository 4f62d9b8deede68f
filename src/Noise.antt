-- ===== src/Noise.antt =====
-- The Noise XX layer: src/bitchat/noise_state.h and src/bitchat/noise_handshake.cpp.
pub mod Crypto
pub mod Symmetric
pub mod Handshake
pub mod Toy
mod Tests
