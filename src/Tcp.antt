-- ===== src/Tcp.antt =====
-- The client of src/meshtastic/meshtastic_tcp.cpp, above its framing (Frame).
pub mod Resolve
pub mod Nodes
pub mod Receive
pub mod Session
pub mod PacketIds
pub mod Sent
pub mod Texts
pub mod Directory
mod Tests
use bitchat_meshtastic.Prelude.{ℕ, ◌+◌, ◌*◌, ◌%◌, ◌^◌, Bool, List, [], ◌∷◌, ◌++◌}
use bitchat_meshtastic.Frame.{Rx, idle}
use bitchat_meshtastic.Bridge.Message.{BridgeMessage}
use bitchat_meshtastic.Tcp.Nodes.{NodeEntry}

-- `_rx_pos` and `_rx_buf` are in `rx`.
pub record Tcp : Type 0 where
  pub connected : Bool
  pub config_complete : Bool
  pub config_nonce : ℕ
  pub my_node_id : ℕ
  pub packet_id_counter : ℕ
  pub nodes : List NodeEntry
  pub bridge_node_num : ℕ
  pub last_nodeinfo_ms : ℕ
  pub bridge_long_name : List ℕ
  pub bridge_short_name : List ℕ
  pub bridge_nodeinfo_pending : Bool
  pub last_heartbeat_ms : ℕ
  pub rx : Rx

-- What goes out: bytes to the socket, a message to the callback, the clock set, the socket closed.
pub data Out : Type 0 where
  write : List ℕ → Out
  message : BridgeMessage → Out
  set_clock : ℕ → Out
  stop : Out

-- `rand` is `esp_random()`.
unfoldable pub generate_packet_id : ℕ → ℕ → ℕ
generate_packet_id rand counter = (counter + 1) % 2 ^ 10 + rand % 2 ^ 22 * 2 ^ 10
