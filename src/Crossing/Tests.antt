-- ===== src/Crossing/Tests.antt =====
-- A short text of a peer, from its session to the frame on the socket, and one of a node, from its frame to a peer.
use bitchat_meshtastic.Prelude.{
  ℕ, ◌≡◌, refl, arith, true, false, none, some, [], codes, replicate, ◌∷◌, get_or, ==-refl,
}
use bitchat_meshtastic.Frame.{idle}
use bitchat_meshtastic.Proto.Report.{FloatPrinter}
use bitchat_meshtastic.Bridge.Message.{hash}
use bitchat_meshtastic.Bridge.Dedup.{empty_dedup, is_duplicate, any_recent}
use bitchat_meshtastic.Bridge.Names.{update_ble_name, find_ble_name}
use bitchat_meshtastic.Bridge.Registry.{VirtualIdentity, get_or_create, touch}
use bitchat_meshtastic.Bridge.Manager.{Bridge, Env}
use bitchat_meshtastic.Bridge.Manager.Text.{format_bridged_text}
use bitchat_meshtastic.Tcp.{Tcp}
use bitchat_meshtastic.Tcp.Texts.{text_frame, forwarded_text}
use bitchat_meshtastic.Ble.Relay.{empty_relay}
use bitchat_meshtastic.Ble.Identity.{BitchatKeypair}
use bitchat_meshtastic.Ble.Peers.{PeerSession, find_peer}
use bitchat_meshtastic.Ble.Handle.{display_name_of}
use bitchat_meshtastic.Ble.Scenes.{radio, ours, theirs, in_session, identity, bridge, peer}
use bitchat_meshtastic.Crossing.Back.{Back, mesh_text_crosses}
use bitchat_meshtastic.Crossing.{Crossing, bridged_text, heard_message}

abbrev fresh_bridge : Bridge ℕ
fresh_bridge = record {
  id_mapper = record { mesh_names = []; ble_names = []; last_save_ms = 0; dirty = false };
  virt_registry = [];
  dedup = empty_dedup;
  msg_count = 0;
  pending = [];
  pending_next = 0;
  pending_send_at_ms = 0;
  mesh_retry_ms = 0;
  mesh_retry_interval = 5000;
  mesh_was_connected = true;
  virt_announce_idx = none;
  last_virt_announce_cycle_ms = 0;
  last_virt_announce_step_ms = 0;
  last_mem_check_ms = 0;
}

abbrev outside : Env ℕ
outside = record {
  now = 2000;
  heap = λ n. 90000;
  opens = true;
  master = none;
  derive = λ n. some n;
}

abbrev node : Tcp
node = record {
  connected = true;
  config_complete = true;
  config_nonce = 0;
  my_node_id = 9;
  packet_id_counter = 0;
  nodes = [];
  bridge_node_num = 0;
  last_nodeinfo_ms = 0;
  bridge_long_name = [];
  bridge_short_name = [];
  bridge_nodeinfo_pending = false;
  last_heartbeat_ms = 0;
  rx = idle;
}

abbrev known : PeerSession
known = record in_session { peer_id = some (replicate 8 3) }

-- It is shown under the name that the peer has announced.
bridged :
    bridged_text outside (heard_message radio theirs known (codes "hi")) fresh_bridge
    ≡ codes "[B] Ann: hi"
unfolding format_bridged_text update_ble_name display_name_of find_ble_name
bridged = refl

abbrev plain : FloatPrinter
plain = record { degrees = λ n. []; one_place = λ n. []; no_place = λ n. [] }

abbrev ann : VirtualIdentity BitchatKeypair
ann = record {
  mesh_node_id = 5;
  keypair = identity 5;
  last_seen_ms = 2000;
  display_name = codes "Ann";
}

abbrev known_bridge : Bridge BitchatKeypair
known_bridge = record {
  id_mapper = record { mesh_names = []; ble_names = []; last_save_ms = 0; dirty = false };
  virt_registry = record ann { last_seen_ms = 10 } ∷ [];
  dedup = empty_dedup;
  msg_count = 0;
  pending = [];
  pending_next = 0;
  pending_send_at_ms = 0;
  mesh_retry_ms = 0;
  mesh_retry_interval = 5000;
  mesh_was_connected = true;
  virt_announce_idx = none;
  last_virt_announce_cycle_ms = 0;
  last_virt_announce_step_ms = 0;
  last_mem_check_ms = 0;
}

abbrev with_master : Env BitchatKeypair
with_master = record {
  now = 2000;
  heap = λ n. 90000;
  opens = true;
  master = some (replicate 32 1);
  derive = λ n. some (identity n);
}

mesh_text_crosses_example :
    Back plain 0
      (text_frame 5 0xFFFFFFFF 77 0 3 (codes "hi"))
      node
      (forwarded_text 2000 5 (codes "hi") [])
      with_master
      known_bridge
      radio
      radio
      ours
      (in_session ∷ [])
      empty_relay
      (bridge peer)
      1
unfolding is_duplicate any_recent hash get_or_create touch find_peer
mesh_text_crosses_example =
    mesh_text_crosses plain 0 5 0xFFFFFFFF 77 0 3 b'h' b'h' (codes "i") (codes "i") node with_master
      known_bridge ann (replicate 32 1) radio radio ours (in_session ∷ []) empty_relay (bridge peer)
      1 0 (replicate 32 4) refl (omega arith) (omega arith) (omega arith) (omega arith)
      (omega arith) (omega arith) refl refl refl refl refl refl (λ body key. refl)
      (λ body. ==-refl (get_or body 2 0)) (refl, refl, refl) refl refl (omega arith)
