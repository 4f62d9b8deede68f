-- ===== src/Ble/Incoming/Unsigned.antt =====
-- Packets that do not say that they are signed.
use bitchat_meshtastic.Prelude.{
  ℕ, ◌≤◌, ◌≡◌, refl, sym, ap, ◌∙◌, arith, Option, some, List, [], ◌∷◌, ◌++◌, length, get_or, take,
  append-nil,
}
use bitchat_meshtastic.Ble.Tlv.{tlv_encode, length-tlv_encode_le}
use bitchat_meshtastic.Ble.Padding.{unpad_packet}
use bitchat_meshtastic.Ble.Queue.{RxEntry}
use bitchat_meshtastic.Ble.Packet.{packet_body, read_packet, pass, check_signature}
use bitchat_meshtastic.Ble.Packet.RoundTrip.{packet_read, read_packet-packet_body}
use bitchat_meshtastic.Ble.Peers.{zero_peer, find_peer, Effect, on_message}
use bitchat_meshtastic.Ble.Send.{Radio}
use bitchat_meshtastic.Ble.Handle.{message_from}
use bitchat_meshtastic.Ble.Incoming.{BitchatBle, clock_set, process_incoming}
use bitchat_meshtastic.Ble.Incoming.Message.{message-accepted}

passes :
    (r : Radio) (sender payload pkt : List ℕ) (known : Option (List ℕ))
    → check_signature r.signer (packet_read 2 0 sender payload) pkt known ≡ pass
unfolding check_signature
passes r sender payload pkt known = refl

-- A message in a packet that does not say it is signed, with any ID for its sender, reaches the bridge, also
-- from a peer whose key is known: the flag of the packet alone decides whether a signature is asked for.
pub unsigned_message-accepted :
    (r : Radio) (entry : RxEntry) (st : BitchatBle) (i ts b : ℕ) (sender text key : List ℕ)
    → entry.bytes ≡ packet_body 2 ts 0 sender (tlv_encode 5 (b ∷ text))
    → unpad_packet entry.bytes ≡ entry.bytes
    → find_peer entry.conn_handle st.peers ≡ some i
    → (get_or st.peers i zero_peer).sign_pubkey ≡ some key
    → 8 ≤ length sender
    → length (b ∷ text) ≤ 255
    → (name : List ℕ) × (st' : BitchatBle) × (outs : List Effect) × (process_incoming r entry st
        ≡ some (
          st',
          clock_set r entry.bytes
              ++ (on_message (message_from r.now (take 8 sender) name (b ∷ text)) ∷ outs),
        ))
unsigned_message-accepted r entry st i ts b sender text key whole unpadded known stored hs ht =
    message-accepted r entry st i 0 b entry.bytes sender text unpadded
      (ap read_packet (whole ∙ sym (append-nil (packet_body 2 ts 0 sender payload)))
        ∙ read_packet-packet_body 2 ts 0 sender payload [] hs
            (omega (arith, length-tlv_encode_le 5 (b ∷ text))) refl)
      known (passes r sender payload entry.bytes (get_or st.peers i zero_peer).sign_pubkey) ht
  where
    payload : List ℕ
    payload = tlv_encode 5 (b ∷ text)
