-- ===== src/Ble/Handle.antt =====
-- The handlers of src/bitchat/bitchat_ble.cpp: `_handle_announce`, `_handle_message`,
-- `_handle_noise_handshake` and `_handle_encrypted`.
pub mod Session
pub mod Private
pub mod Keeps
use bitchat_meshtastic.Prelude.{
  ℕ, ◌+◌, ◌-◌, ltb, ◌==◌, if◌then◌else◌, Bool, true, false, not, ◌&&◌, ◌||◌, Option, none, some,
  List, [], ◌∷◌, ◌++◌, length, take, replicate, is_empty, c_str,
}
use bitchat_meshtastic.Config.{
  bitchat_sender_id_len, bitchat_tlv_nickname, bitchat_tlv_signing_pubkey, bitchat_tlv_text,
  bitchat_tlv_message_id, bitchat_tlv_content, noise_payload_private_msg, noise_payload_delivered,
}
use bitchat_meshtastic.Proto.Field.{Slice, slice, negative}
use bitchat_meshtastic.Noise.Handshake.{
  Handshake, Role, initiator, responder, Phase, idle, await_msg2, await_msg3, transport, failed,
  Ret, ok, err, is_idle, is_transport, hs_init, write_msg1, read_msg1_write_msg2,
  read_msg2_write_msg3, read_msg3, hs_decrypt,
}
use bitchat_meshtastic.Bridge.Message.{BridgeMessage, bitchat}
use bitchat_meshtastic.Ble.Tlv.{tlv_encode, tlv_find}
use bitchat_meshtastic.Ble.Packet.{tlv_in}
use bitchat_meshtastic.Ble.Identity.{BitchatKeypair, bitchat_fingerprint_short}
use bitchat_meshtastic.Ble.Peers.{PeerSession, Effect, on_message, zero_key}
use bitchat_meshtastic.Ble.Send.{Radio, Own, send_announce, send_handshake_packet, send_encrypted}

-- A TLV that is not there and one that is empty read alike.
abbrev pub value_or_empty : Option (List ℕ) → List ℕ
value_or_empty none = []
value_or_empty (some v) = v

-- A C string of at most `n` bytes.
abbrev pub text_of : ℕ → List ℕ → List ℕ
text_of n bytes = c_str (take n bytes)

abbrev pub message_from : ℕ → List ℕ → List ℕ → List ℕ → BridgeMessage
message_from now peer_id name text = record {
  origin = bitchat;
  sender = record {
    meshtastic_node_id = 0;
    bitchat_fingerprint = take bitchat_sender_id_len peer_id ++ replicate 24 0;
    display_name = name;
  };
  text = text_of 511 text;
  timestamp_ms = now;
}

-- The nickname that was announced, or else the one in the packet, or else the sender in
-- hexadecimal digits.
unfoldable pub display_name_of : List ℕ → Option (List ℕ) → List ℕ → List ℕ
unfolding bitchat_fingerprint_short
display_name_of nickname inline_nick sender_id =
    if not (is_empty nickname)
    then take 31 nickname
    else (let nick = value_or_empty inline_nick in
        if is_empty nick then bitchat_fingerprint_short sender_id else text_of 31 nick)

unfoldable pub handle_message : ℕ → PeerSession → Slice → List ℕ → List Effect
unfolding display_name_of
handle_message now p payload sender_id =
    let text = value_or_empty (tlv_in payload bitchat_tlv_text) in
    if is_empty text
    then []
    else (on_message (
          message_from now sender_id
            (display_name_of p.nickname (tlv_in payload bitchat_tlv_nickname) sender_id) text)
        ∷ [])

module _ (r : Radio) (o : Own) where
  -- The session is the initiator of a handshake from here on; where it cannot be begun, nothing is
  -- sent.
  abbrev sent_msg1 : PeerSession → Handshake × Ret (List ℕ) → PeerSession × List Effect
  sent_msg1 p (hs, ok out) = let p' = record p { hs = hs } in (p', send_handshake_packet r o p' out)
  sent_msg1 p (hs, err e) = (record p { hs = hs }, [])

  abbrev begun : PeerSession → Handshake × Ret (Unit {0}) → PeerSession × List Effect
  begun p (hs, ok u) = sent_msg1 p (write_msg1 r.crypto hs)
  begun p (hs, err e) = (record p { hs = hs }, [])

  unfoldable pub begin_handshake : PeerSession → PeerSession × List Effect
  begin_handshake p = begun p (
      hs_init r.crypto initiator o.keypair.noise_private o.keypair.noise_public
        (r.ephemeral p.conn_handle))

  -- What the announcement says of the peer is kept.
  unfoldable pub announced : Slice → PeerSession → PeerSession
  announced payload p =
      let nick = text_of 32 (value_or_empty (tlv_in payload bitchat_tlv_nickname)) in
      let key = value_or_empty (tlv_in payload bitchat_tlv_signing_pubkey) in
      record p {
        nickname = if is_empty nick then p.nickname else nick;
        sign_pubkey = if length key == 32 then some key else p.sign_pubkey;
        announce_rcvd = true;
      }

  unfoldable pub answer_announce : PeerSession → PeerSession × List Effect
  answer_announce p = if p.announce_sent then (p, []) else send_announce r o p

  unfoldable pub handle_announce : PeerSession → Slice → PeerSession × List Effect
  unfolding announced answer_announce begin_handshake
  handle_announce p payload =
      let (p1, out1) = answer_announce (announced payload p) in
      let (p2, out2) = begin_handshake p1 in
      if p1.we_are_central && is_idle p1.hs.phase then (p2, out1 ++ out2) else (p1, out1)

  -- What a message of the handshake is answered with.
  abbrev answered : PeerSession → Handshake × Ret (List ℕ) → PeerSession × List Effect
  answered p (hs, ok out) = let p' = record p { hs = hs } in (p', send_handshake_packet r o p' out)
  answered p (hs, err e) = (record p { hs = hs }, [])

  abbrev responded : PeerSession → List ℕ → Handshake × Ret (Unit {0}) → PeerSession × List Effect
  responded p payload (hs, ok u) = answered p (read_msg1_write_msg2 r.crypto payload hs)
  responded p payload (hs, err e) = (record p { hs = hs }, [])

  unfoldable pub handshake_step : Phase → PeerSession → List ℕ → PeerSession × List Effect
  handshake_step idle p payload = responded p payload (
      hs_init r.crypto responder o.keypair.noise_private o.keypair.noise_public
        (r.ephemeral p.conn_handle))
  handshake_step await_msg2 p payload = answered p (read_msg2_write_msg3 r.crypto payload p.hs)
  handshake_step await_msg3 p payload = (record p { hs = (read_msg3 r.crypto payload p.hs).0 }, [])
  handshake_step transport p payload = (p, [])
  handshake_step failed p payload = (p, [])

  abbrev reads_payload : Phase → Option (List ℕ × List ℕ) → Bool
  reads_payload idle none = false
  reads_payload idle (some keypair) = true
  reads_payload await_msg2 keypair = true
  reads_payload await_msg3 keypair = true
  reads_payload transport keypair = false
  reads_payload failed keypair = false

  -- `none`: a negative length is taken for a size_t, and what stands behind the packet is read.
  unfoldable pub handle_noise_handshake : PeerSession → Slice → Option (PeerSession × List Effect)
  unfolding handshake_step
  handle_noise_handshake p (slice payload) = some (handshake_step p.hs.phase p payload)
  handle_noise_handshake p negative =
      if reads_payload p.hs.phase (r.ephemeral p.conn_handle)
      then none
      else some (handshake_step p.hs.phase p [])

  -- The receipt is written to 20 bytes of the stack: `none` if it is longer.
  unfoldable pub send_receipt : List ℕ → PeerSession → Option (PeerSession × List Effect)
  send_receipt message_id p =
      let receipt = tlv_encode bitchat_tlv_message_id message_id in
      if is_empty message_id
      then some (p, [])
      else if ltb 20 (length receipt)
      then none
      else some (send_encrypted r o p noise_payload_delivered receipt)

  abbrev pub peer_id_of : PeerSession → List ℕ
  peer_id_of p = elim p.peer_id [ none ↦ replicate 8 0 | some id ↦ id ]

  abbrev behind :
      List Effect → Option (PeerSession × List Effect) → Option (PeerSession × List Effect)
  behind out none = none
  behind out (some (p, outs)) = some (p, out ++ outs)

  -- The inside of a private message: the text goes to the bridge, then the receipt is sent.
  unfoldable pub handle_private : PeerSession → List ℕ → Option (PeerSession × List Effect)
  unfolding display_name_of send_receipt
  handle_private p inner =
      let content = value_or_empty (tlv_find inner bitchat_tlv_content) in
      if is_empty content
      then some (p, [])
      else (behind
          (on_message (
              message_from r.now (peer_id_of p) (display_name_of p.nickname none (peer_id_of p))
                content)
            ∷ [])
          (send_receipt (value_or_empty (tlv_find inner bitchat_tlv_message_id)) p))

  -- Receipts and other payloads are only logged.
  unfoldable pub handle_plaintext : PeerSession → List ℕ → Option (PeerSession × List Effect)
  unfolding handle_private
  handle_plaintext p [] = some (p, [])
  handle_plaintext p (noise_type ∷ inner) =
      if (noise_type == noise_payload_private_msg) && not (is_empty inner)
      then handle_private p inner
      else some (p, [])

  abbrev decrypted : PeerSession → Handshake × Ret (List ℕ) → Option (PeerSession × List Effect)
  decrypted p (hs, ok pt) = handle_plaintext (record p { hs = hs }) pt
  decrypted p (hs, err e) = some (record p { hs = hs }, [])

  -- `header` is the associated data. `none`: a negative length is taken for a size_t.
  unfoldable pub handle_encrypted :
      PeerSession → List ℕ → Slice → Option (PeerSession × List Effect)
  unfolding handle_plaintext
  handle_encrypted p header (slice ct) =
      if is_transport p.hs.phase
      then decrypted p (hs_decrypt r.crypto header ct p.hs)
      else some (p, [])
  handle_encrypted p header negative = if is_transport p.hs.phase then none else some (p, [])
