-- ===== src/Ble/SessionTests.antt =====
-- The theorems on sessions at concrete inputs.
use bitchat_meshtastic.Prelude.{
  ℕ, List, [], ◌∷◌, ◌++◌, true, false, ◌≡◌, ◌≤◌, refl, arith, none, some, [], length, replicate,
  codes, take,
}
use bitchat_meshtastic.Noise.Handshake.{await_msg2}
use bitchat_meshtastic.Noise.Toy.{toy-Honest}
use bitchat_meshtastic.Ble.Peers.{PeerSession, no_peers, zero_handshake}
use bitchat_meshtastic.Ble.Peers.Slots.{AreDistinct}
use bitchat_meshtastic.Ble.Fragments.{handle_fragment}
use bitchat_meshtastic.Ble.Tlv.{tlv_encode}
use bitchat_meshtastic.Ble.Send.{
  send_announce, announcement, packet_of, message_packet, private_message,
}
use bitchat_meshtastic.Ble.Send.Sizes.{packets_fit}
use bitchat_meshtastic.Ble.Handle.Session.{Meeting, sessions_meet}
use bitchat_meshtastic.Ble.Incoming.{BitchatBle}
use bitchat_meshtastic.Ble.Session.{
  is_stuck, expire_peers, on_connect, on_disconnect, connect_to_peripheral,
}
use bitchat_meshtastic.Ble.Session.Timeout.{cleared_all, expire_peers-cleared}
use bitchat_meshtastic.Ble.Session.Drain.{IsDrained, drain_queue-IsDrained}
use bitchat_meshtastic.Ble.Packet.{
  check_signature, packet_seconds, signed_packet, packet_header, packet_body, read_packet,
}
use bitchat_meshtastic.Ble.Padding.{unpad_packet, pad_packet}
use bitchat_meshtastic.Ble.Fragments.Held.{held_bytes}
use bitchat_meshtastic.Ble.Queue.{zero_rx, on_write}
use bitchat_meshtastic.Ble.Session.{drain_queue}
use bitchat_meshtastic.Ble.Incoming.{process_incoming}
use bitchat_meshtastic.Ble.Scenes.{entry_of}
use bitchat_meshtastic.Ble.Peers.{find_peer}
use bitchat_meshtastic.Ble.Session.Central.{NoWrite, connect_to_peripheral-NoWrite}
use bitchat_meshtastic.Ble.Scenes.{radio, identity, ours, theirs, peer, bridge}

sessions_meet_example : Meeting radio radio ours theirs peer peer
sessions_meet_example =
    sessions_meet radio radio ours theirs toy-Honest refl peer peer (replicate 32 1)
      (replicate 32 2) (replicate 32 3) (replicate 32 2) refl refl refl refl refl refl refl

-- A connection, and then the loss of another one.
abbrev empty_bridge : BitchatBle
empty_bridge = record (bridge peer) { peers = no_peers }

abbrev connected : BitchatBle
connected = (on_connect radio 7 (replicate 6 5) false empty_bridge).0

abbrev kept : BitchatBle
kept = (on_disconnect 8 connected).0

-- Its handshake was begun 16 seconds ago.
abbrev late : PeerSession
late = record peer {
  hs = record zero_handshake { phase = await_msg2 };
  connect_time_ms = 4294952296;
}

late-is_stuck : is_stuck radio late ≡ true
late-is_stuck = refl

late-AreDistinct : AreDistinct (bridge late).peers
late-AreDistinct = (
  λ live. (refl, (refl, (refl, tt))),
  (λ live. (refl, (refl, tt)), (λ live. (refl, tt), (λ live. tt, tt))),
)

expire_peers-cleared_example :
    (expire_peers radio 4 0 (bridge late)).0.peers ≡ cleared_all radio (bridge late).peers
expire_peers-cleared_example = expire_peers-cleared radio (bridge late) late-AreDistinct

connect_to_peripheral-NoWrite_example :
    NoWrite (connect_to_peripheral radio (replicate 6 5) (some 7) (bridge peer)).1
connect_to_peripheral-NoWrite_example =
    connect_to_peripheral-NoWrite radio (replicate 6 5) (some 7) (bridge peer)

packets_fit_example :
    (length (announcement (codes "Bob") (identity 1)) ≤ 128)
    × (length (packet_of radio (identity 1) 1 (announcement (codes "Bob") (identity 1))) ≤ 512)
    × (length (packet_of radio (identity 1) 3 []) ≤ 256)
    × (length (message_packet radio ours (identity 1) (replicate 300 7)) ≤ 2048)
    × (length (private_message radio ours (take 16 (replicate 16 6)) (replicate 300 7)) ≤ 320)
packets_fit_example =
    packets_fit radio ours (identity 1) (codes "Bob") (replicate 300 7) (replicate 16 6)
      (λ body key. refl) (refl, refl, refl)

-- A fragment that is alone and holds a request, and an entry that is no packet.
abbrev request : List ℕ
request = packet_body 0x21 9 0 (replicate 8 8) (200 ∷ [])

abbrev alone : List ℕ
alone = packet_body 0x20 9 0 (replicate 8 8) ((0 ∷ 0 ∷ 0 ∷ 5 ∷ 0 ∷ 1 ∷ []) ++ request)

abbrev filled : BitchatBle
filled = record (bridge peer) {
  queue = record {
    slots = entry_of alone ∷ entry_of (1 ∷ 2 ∷ 200 ∷ []) ∷ zero_rx ∷ zero_rx ∷ [];
    head = 2;
    tail = 0;
  };
}

-- Three rounds: the request that is reassembled is the last.
request_answered :
    elim (drain_queue radio 3 filled) as (λ o. ℕ × ℕ) [
      | none ↦ (9, 9)
      | some (st, out) ↦ (st.queue.tail, length out)
    ]
    ≡ (3, 1)
unfolding drain_queue process_incoming packet_body packet_header unpad_packet read_packet find_peer
    check_signature handle_fragment on_write packet_seconds send_announce pad_packet signed_packet
    tlv_encode
request_answered = refl

drain_queue-IsDrained_example : IsDrained (drain_queue radio 200 filled)
unfolding packet_body packet_header held_bytes
drain_queue-IsDrained_example = drain_queue-IsDrained radio 200 filled (omega arith) (omega arith)
