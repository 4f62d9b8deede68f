-- ===== src/Ble/Incoming/Message.antt =====
-- A message packet that passes the checks reaches the bridge.
use bitchat_meshtastic.Prelude.{
  ℕ, ◌≤◌, ◌≡◌, refl, ap, ◌∙◌, some, List, [], ◌∷◌, ◌++◌, length, get_or, take,
}
use bitchat_meshtastic.Proto.Field.{slice}
use bitchat_meshtastic.Ble.Tlv.{tlv_encode, tlv_find-only}
use bitchat_meshtastic.Ble.Padding.{unpad_packet}
use bitchat_meshtastic.Ble.Queue.{RxEntry}
use bitchat_meshtastic.Ble.Packet.{Packet, read_packet, pass, tlv_in, check_signature}
use bitchat_meshtastic.Ble.Packet.RoundTrip.{packet_read}
use bitchat_meshtastic.Ble.Peers.{PeerSession, zero_peer, find_peer, Effect, on_message}
use bitchat_meshtastic.Ble.Send.{Radio}
use bitchat_meshtastic.Ble.Handle.{message_from, display_name_of, handle_message}
use bitchat_meshtastic.Ble.Incoming.{
  BitchatBle, identified, clock_set, with_peer, behind_clock, handle_packet, passed_on, dispatch,
  process_incoming,
}
use bitchat_meshtastic.Ble.Incoming.Checks.{process_incoming-checked}

handle_message-text :
    (now : ℕ) (p : PeerSession) (sender_id : List ℕ) (b : ℕ) (text : List ℕ)
    → length (b ∷ text) ≤ 255
    → (name : List ℕ) × (handle_message now p (slice (tlv_encode 5 (b ∷ text))) sender_id
        ≡ on_message (message_from now sender_id name (b ∷ text)) ∷ [])
unfolding handle_message
handle_message-text now p sender_id b text h = (
  display_name_of p.nickname (tlv_in (slice (tlv_encode 5 (b ∷ text))) 1) sender_id,
  rw (tlv_find-only 5 (b ∷ text) h) refl,
)

-- What is left of a message when it has been handled: it is passed on.
handed : Radio → Packet → List ℕ → ℕ → ℕ → PeerSession → BitchatBle → BitchatBle × List Effect
handed r p pkt handle i peer st = passed_on r p pkt handle (with_peer r i peer st)

handle_packet-message :
    (r : Radio) (flags : ℕ) (sender payload pkt : List ℕ) (handle i : ℕ) (peer : PeerSession)
    (st : BitchatBle)
    → let p = packet_read 2 flags sender payload in
      handle_packet r p pkt handle i peer st
      ≡ some (
        (handed r p pkt handle i peer st).0,
        handle_message r.now peer (slice payload) (take 8 sender)
            ++ (handed r p pkt handle i peer st).1,
      )
unfolding handle_packet dispatch handed
handle_packet-message r flags sender payload pkt handle i peer st = refl

-- Its text is given to the bridge, behind the clock's effect.
pub message-accepted :
    (r : Radio) (entry : RxEntry) (st : BitchatBle) (i flags b : ℕ) (pkt sender text : List ℕ)
    → let p = packet_read 2 flags sender (tlv_encode 5 (b ∷ text)) in
      unpad_packet entry.bytes ≡ pkt
      → read_packet pkt ≡ some p
      → find_peer entry.conn_handle st.peers ≡ some i
      → check_signature r.signer p pkt (get_or st.peers i zero_peer).sign_pubkey ≡ pass
      → length (b ∷ text) ≤ 255
      → (name : List ℕ) × (st' : BitchatBle) × (outs : List Effect) × (process_incoming r entry st
          ≡ some (
            st',
            clock_set r pkt
                ++ (on_message (message_from r.now (take 8 sender) name (b ∷ text)) ∷ outs),
          ))
message-accepted r entry st i flags b pkt sender text unpadded readable known passes ht = (
  heard.0,
  rest.0,
  rest.1,
  process_incoming-checked r entry st pkt p i pass unpadded readable known passes
      ∙ ap (behind_clock r (clock_set r pkt)) (
          handle_packet-message r flags sender payload pkt entry.conn_handle i peer st
          ∙ ap (λ out. some (rest.0, out ++ rest.1)) heard.1),
)
  where
    payload : List ℕ
    payload = tlv_encode 5 (b ∷ text)

    p : Packet
    p = packet_read 2 flags sender payload

    peer : PeerSession
    peer = identified (take 8 sender) (get_or st.peers i zero_peer)

    rest : BitchatBle × List Effect
    rest = handed r p pkt entry.conn_handle i peer st

    heard :
        (name : List ℕ) × (handle_message r.now peer (slice payload) (take 8 sender)
          ≡ on_message (message_from r.now (take 8 sender) name (b ∷ text)) ∷ [])
    heard = handle_message-text r.now peer (take 8 sender) b text ht
