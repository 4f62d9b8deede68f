-- ===== src/Crossing.antt =====
-- A text on its way from a Bitchat peer through src/bridge/bridge_manager.cpp to the Meshtastic node: the callbacks that
-- `begin` wires.
mod Tests
pub mod Back
use bitchat_meshtastic.Prelude.{
  ℕ, ◌≡◌, not, ◌&&◌, Bool, some, none, List, [], ◌∷◌, take, is_empty, if◌then◌else◌,
}
use bitchat_meshtastic.Frame.{idle, feed}
use bitchat_meshtastic.Proto.Encode.{encode_data, encode_mesh_packet, encode_to_radio_packet}
use bitchat_meshtastic.Bridge.Message.{BridgeMessage, hash, has_bitchat_fingerprint}
use bitchat_meshtastic.Bridge.Dedup.{record_hash}
use bitchat_meshtastic.Bridge.Names.{update_ble_name}
use bitchat_meshtastic.Bridge.Manager.{mesh_send_text, Bridge, Env, on_bitchat_message}
use bitchat_meshtastic.Bridge.Manager.Text.{format_bridged_text}
use bitchat_meshtastic.Tcp.{Tcp}
use bitchat_meshtastic.Tcp.Session.{send_text}
use bitchat_meshtastic.Tcp.Sent.{written}
use bitchat_meshtastic.Ble.Peers.{PeerSession}
use bitchat_meshtastic.Ble.Send.{Radio, Own, cut_text}
use bitchat_meshtastic.Ble.Handle.{message_from, display_name_of, peer_id_of}
use bitchat_meshtastic.Ble.Handle.Private.{PrivateText}

-- What the Bluetooth class gives to the bridge for a private text from `q`.
abbrev pub heard_message : Radio → Own → PeerSession → List ℕ → BridgeMessage
heard_message b ob q text =
    message_from b.now (peer_id_of b ob q) (display_name_of q.nickname none (peer_id_of b ob q))
      (cut_text text)

module _ {K : Type 0} where
  -- The message is recorded, and its sender's name is kept.
  abbrev pub noted : Env K → BridgeMessage → Bridge K → Bridge K
  noted env msg st =
      let fp = msg.sender.bitchat_fingerprint in
      let seen = record st { dedup = record_hash env.now (hash msg) st.dedup } in
      if not (is_empty msg.sender.display_name) && has_bitchat_fingerprint fp
      then record seen {
        id_mapper =
            (update_ble_name env.opens env.now fp (some msg.sender.display_name) seen.id_mapper).0;
      }
      else seen

  abbrev pub bridged_text : Env K → BridgeMessage → Bridge K → List ℕ
  bridged_text env msg st = format_bridged_text (noted env msg st).id_mapper msg

  -- Each stage of the text's way.
  pub record Crossing (a b : Radio) (oa ob : Own) (p q : PeerSession) (text : List ℕ) (env : Env K)
      (st : Bridge K) (client : Bool) (rand : ℕ) (tcp : Tcp) : Type 0 where
    pub heard : PrivateText a b oa ob p q text
    pub st' : Bridge K
    pub bridged :
        let msg = heard_message b ob q text in
        on_bitchat_message env msg st ≡ (st', mesh_send_text (bridged_text env msg st) ∷ [])
    pub framed :
        let words = bridged_text env (heard_message b ob q text) st in
        (feed idle (written (send_text client rand words 0xFFFFFFFF 0 tcp).1)).1
        ≡ encode_to_radio_packet (
            encode_mesh_packet 0 0xFFFFFFFF
              (send_text client rand words 0xFFFFFFFF 0 tcp).0.packet_id_counter
              0
              3
              (encode_data 1 (take 233 words)))
          ∷ []
