-- ===== src/Tcp/Tests.antt =====
-- The theorems of the client at concrete inputs.
use bitchat_meshtastic.Prelude.{◌≡◌, refl, arith, true, false, none, [], ◌∷◌, take, codes}
use bitchat_meshtastic.Frame.{idle, feed}
use bitchat_meshtastic.Proto.Encode.{encode_data, encode_mesh_packet, encode_to_radio_packet}
use bitchat_meshtastic.Proto.Loop.{done}
use bitchat_meshtastic.Proto.Report.{FloatPrinter}
use bitchat_meshtastic.Proto.Parse.{ParsedNodeInfo}
use bitchat_meshtastic.Tcp.{Tcp, message}
use bitchat_meshtastic.Tcp.Nodes.{get_node_name}
use bitchat_meshtastic.Tcp.Receive.{bridge_message, handle_from_radio}
use bitchat_meshtastic.Clock.{time_sync_from_epoch}
use bitchat_meshtastic.Tcp.Session.{send_text}
use bitchat_meshtastic.Tcp.PacketIds.{AreDistinct, packet_ids, packet_ids-AreDistinct}
use bitchat_meshtastic.Tcp.Sent.{written, send_text-frame}
use bitchat_meshtastic.Tcp.Texts.{forwarded_text, text_frame, parsed_text, handle_from_radio-text}

abbrev plain : FloatPrinter
plain = record { degrees = λ n. []; one_place = λ n. []; no_place = λ n. [] }

abbrev session : Tcp
session = record {
  connected = true;
  config_complete = true;
  config_nonce = 0;
  my_node_id = 9;
  packet_id_counter = 0;
  nodes = [];
  bridge_node_num = 0;
  last_nodeinfo_ms = 0;
  bridge_long_name = [];
  bridge_short_name = [];
  bridge_nodeinfo_pending = false;
  last_heartbeat_ms = 0;
  rx = idle;
}

packet_ids-AreDistinct_example : AreDistinct (packet_ids (7 ∷ 7 ∷ 3 ∷ []) 5)
packet_ids-AreDistinct_example = packet_ids-AreDistinct (7 ∷ 7 ∷ 3 ∷ []) 5 (omega arith)

send_text-frame_example :
    (feed idle (written (send_text true 7 (codes "hi") 0xFFFFFFFF 0 session).1)).1
    ≡ encode_to_radio_packet (
        encode_mesh_packet 0 0xFFFFFFFF
          (send_text true 7 (codes "hi") 0xFFFFFFFF 0 session).0.packet_id_counter
          0
          3
          (encode_data 1 (take 233 (codes "hi"))))
      ∷ []
send_text-frame_example = send_text-frame true 7 (codes "hi") 0xFFFFFFFF 0 session refl

handle_from_radio-text_example :
    handle_from_radio plain 100 0 (text_frame 5 0xFFFFFFFF 77 0 3 (codes "hi")) session
    ≡ done (session, message (forwarded_text 100 5 (codes "hi") []) ∷ [])
handle_from_radio-text_example =
    handle_from_radio-text plain 100 0 5 0xFFFFFFFF 77 0 3 b'h' (codes "i") session refl
      (omega arith) (omega arith) (omega arith) (omega arith) (omega arith) (omega arith)

-- A node without a NodeInfo is shown by its number.
sender_without_name :
    (bridge_message 100 (parsed_text 5 0xFFFFFFFF 77 0 (codes "hi")) []).sender.display_name
    ≡ codes "!00000005"
unfolding bridge_message get_node_name
sender_without_name = refl

abbrev ann : ParsedNodeInfo
ann = record { valid = true; node_num = 5; long_name = codes "Ann"; short_name = codes "A" }

-- A clock that is set already is left alone.
clock_kept : time_sync_from_epoch 1700000000 1800000000 ≡ none
unfolding time_sync_from_epoch
clock_kept = refl
