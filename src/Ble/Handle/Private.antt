-- ===== src/Ble/Handle/Private.antt =====
-- Private messages between two sessions in transport.
mod Layout
use bitchat_meshtastic.Prelude.{ℕ, ◌+◌, ◌≡◌, none, some, List, ◌∷◌, take}
use bitchat_meshtastic.Noise.Handshake.{Handshake}
use bitchat_meshtastic.Proto.Field.{slice}
use bitchat_meshtastic.Ble.Tlv.{tlv_encode}
use bitchat_meshtastic.Ble.Packet.{read_packet}
use bitchat_meshtastic.Ble.Packet.RoundTrip.{packet_read}
use bitchat_meshtastic.Ble.Peers.{PeerSession, on_message}
use bitchat_meshtastic.Ble.Send.{
  Radio, Own, cut_text, send_to_peer, encrypted_packet, send_encrypted, send_text_to,
}
use bitchat_meshtastic.Ble.Handle.{message_from, display_name_of, peer_id_of, handle_encrypted}

-- A private text on its way from `p` at `a` to `q` at `b`: what is sent, how it is read, and what
-- the receiver does.
pub record PrivateText (a b : Radio) (oa ob : Own) (p q : PeerSession) (text : List ℕ)
    : Type 0 where
  pub pt_len : ℕ
  pub ct : List ℕ
  pub p' : PeerSession
  pub q' : PeerSession
  pub sent : send_text_to a oa text p ≡ (p', send_to_peer a oa p' (encrypted_packet a oa pt_len ct))
  pub readable :
      read_packet (encrypted_packet a oa pt_len ct)
      ≡ some (packet_read 0x11 2 oa.keypair.fingerprint ct)
  pub in_step : p'.hs.send_cs ≡ q'.hs.recv_cs
  pub heard :
      handle_encrypted b ob q (take 14 (encrypted_packet a oa pt_len ct)) (slice ct)
      ≡ some (
        (send_encrypted b ob q' 3 (tlv_encode 0 (take 16 (a.message_id p.conn_handle)))).0,
        on_message (
              message_from b.now
                (peer_id_of b ob q)
                (display_name_of q.nickname none (peer_id_of b ob q))
                (cut_text text))
            ∷ (send_encrypted b ob q' 3 (tlv_encode 0 (take 16 (a.message_id p.conn_handle)))).1,
      )
