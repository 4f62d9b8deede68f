-- ===== src/Lib.antt =====
-- The bridge between Bitchat (BLE) and Meshtastic (TCP), as pure functions on explicit states.
--
-- Parts of the program and the files that model them (paths from the repository's root):
--   Config    src/config.h: the constants.
--   Proto     src/meshtastic/mesh_proto.h: varints (Proto.Varint), fields (Proto.Field), the encoders
--             (Proto.Encode), the loop over fields (Proto.Loop), the one-line summaries of
--             positions and telemetry (Proto.Report), the parsers (Proto.Parse).
--   Frame     the framing of src/meshtastic/meshtastic_tcp.cpp: `_send_raw` and the state machine
--             `_process_byte`.
--   Noise     src/bitchat/noise_state.h (Noise.Symmetric) and src/bitchat/noise_handshake.cpp
--             (Noise.Handshake).
--   Bridge    src/bridge/message.h (Bridge.Message), src/bridge/identity_mapper.cpp (Bridge.Names),
--             src/bridge/virtual_identity.h (Bridge.Registry), and src/bridge/bridge_manager.cpp: the
--             ring of hashes (Bridge.Dedup), `_split_into_chunks` (Bridge.Chunks), the texts it writes
--             (Bridge.Manager.Text), `begin` (Bridge.Manager.Begin), the handlers (Bridge.Manager) and
--             `loop` (Bridge.Manager.Tick).
--   Tcp       src/meshtastic/meshtastic_tcp.cpp above the framing: the node directory (Tcp.Nodes),
--             `_handle_from_radio` (Tcp.Receive), `_resolve_host` (Tcp.Resolve), connecting, sending
--             and `loop` (Tcp.Session).
--   Clock     src/utils/time_util.h.
--   Ble       src/bitchat/bitchat_ble.cpp: TLVs (Ble.Tlv), padding (Ble.Padding), fragments
--             (Ble.Fragments), the ring of received writes (Ble.Queue), the relay of packets
--             (Ble.Relay), the layout of packets and their signature (Ble.Packet), the table of
--             sessions (Ble.Peers), every `_send_` function (Ble.Send), every `_handle_` function
--             (Ble.Handle), `_process_incoming` (Ble.Incoming), and `begin`, `loop`, `end`, the
--             callbacks and what the bridge calls (Ble.Session); and
--             src/bitchat/bitchat_identity.h (Ble.Identity).
--   Crossing  the way of a text from a Bitchat peer through the Bluetooth class and the bridge to the
--             client, and the way back (Crossing.Back).
--
-- The client hands a text to the bridge as an output `message`, and the bridge's calls of the
-- transports are the outputs Bridge.Manager.Action. What the Bluetooth class asks of NimBLE, of the
-- system clock and of its callback are the outputs Ble.Peers.Effect, in order.
--
-- The state of the Bluetooth class is Ble.Incoming.BitchatBle. What a call of it reads from outside
-- (the libraries, the times, the MTUs and the random numbers) is a record Ble.Send.Radio, which a call
-- takes as an argument; a random number is a function of what it is drawn for. A result `none` is an
-- access outside of an object. A step of the class (Ble.Session.Table.BleStep) is one call, and the
-- states that are reached are those of sequences of steps in any order.
--
-- Words of 8, 16 and 32 bits are natural numbers, with the wrap-around written out; bytes are
-- natural numbers, and a buffer with its length is a list. Text is a list of bytes, cut at the first
-- NUL where the code reads a C string.
--
-- The loops of the parsers run on fuel, as many rounds as the buffer has bytes: every field that is
-- read uses up a byte, but for one whose length is negative, and a loop that such a field keeps
-- going for ever has the outcome `hang`. The varint loops have 5 rounds. `check_memory_pressure` has
-- as many rounds as there are identities, and each takes one away; `_tlv_find` has as many as the
-- buffer has bytes, and each takes two. The loop of Ble.Session that empties the ring has as many
-- rounds as the caller gives it; the bytes in the ring and in the slots of fragments, each entry
-- counting one more, are enough of them, since every round takes some away (Ble.Session.Drain). What
-- the other task writes meanwhile is modelled by Ble.Queue. The wait of `_do_handshake` is a list of
-- rounds, one for each millisecond.
--
-- SHA-256, HKDF, ChaCha20-Poly1305 and X25519 (mbedTLS), and the printing of floating-point numbers,
-- are parameters; so are the clock, the random numbers, the readings of the heap, and what the flash
-- holds. The laws the handshake relies on are the record Noise.Crypto.Honest: no call fails,
-- unsealing inverts sealing, Diffie-Hellman commutes, and keys and tags have their sizes. Ed25519
-- (src/bitchat/ed25519.h, a copy of TweetNaCl) is the parameter Ble.Packet.Signer, and what the keys
-- are made with is Ble.Identity.KeyLibrary.
--
-- Not modelled: src/main.cpp, the settings of the BLE server, of the
-- advertising and of the scan, WiFi, the serial log, and the vendored cryptography.
pub mod Prelude
pub mod Config
pub mod Clock
pub mod Proto
pub mod Frame
pub mod Noise
pub mod Bridge
pub mod Tcp
pub mod Ble
pub mod Crossing
