-- ===== src/Ble/Send.antt =====
-- What src/bitchat/bitchat_ble.cpp sends: `_send_to_peer`, `_send_fragmented`, `_send_announce`,
-- `_send_leave`, `_send_handshake_packet`, `_send_encrypted`, `_send_packet`, `send_text`,
-- `send_text_as` and `announce_virtual`.
pub mod Sizes
use bitchat_meshtastic.Prelude.{
  ℕ, suc, ◌+◌, ◌-◌, ◌/◌, ◌%◌, ltb, ◌==◌, if◌then◌else◌, Bool, true, false, not, ◌&&◌, ◌||◌, Option,
  none, some, List, [], ◌∷◌, ◌++◌, length, get_or, take, codes,
}
use bitchat_meshtastic.Config.{
  bridge_name, bitchat_ble_mtu, bitchat_max_text_len, bitchat_sender_id_len, bitchat_pkt_announce,
  bitchat_pkt_message, bitchat_pkt_leave, bitchat_pkt_noise_handshake, bitchat_pkt_noise_encrypted,
  bitchat_pkt_fragment, bitchat_flag_has_signature, bitchat_tlv_nickname, bitchat_tlv_noise_pubkey,
  bitchat_tlv_signing_pubkey, bitchat_tlv_text, bitchat_tlv_message_id, bitchat_tlv_content,
  noise_payload_private_msg,
}
use bitchat_meshtastic.Noise.Crypto.{Crypto}
use bitchat_meshtastic.Noise.Handshake.{Handshake, Ret, ok, err, is_transport, hs_encrypt}
use bitchat_meshtastic.Ble.Tlv.{tlv_encode}
use bitchat_meshtastic.Ble.Padding.{pad_packet}
use bitchat_meshtastic.Ble.Fragments.{fragment_payloads}
use bitchat_meshtastic.Ble.Relay.{Relay, relay_hash, relay_record}
use bitchat_meshtastic.Ble.Packet.{Signer, packet_header, packet_body, signed_packet}
use bitchat_meshtastic.Ble.Identity.{BitchatKeypair}
use bitchat_meshtastic.Ble.Peers.{PeerSession, Effect, write_value, notify}

-- What a call reads: the libraries, `millis()`, `bitchat_epoch_ms()` and the seconds of the clock,
-- the MTUs, and the random numbers, each by what it is drawn for: the ID of a message that is
-- fragmented, by the handle and the packet; the ID of a private message and the ephemeral key pair,
-- by the handle.
pub record Radio : Type 0 where
  pub crypto : Crypto
  pub signer : Signer
  pub now : ℕ
  pub epoch_ms : ℕ
  pub clock : ℕ
  pub server_mtu : ℕ
  pub client_mtu : ℕ → ℕ
  pub frag_id : ℕ → List ℕ → ℕ
  pub message_id : ℕ → List ℕ
  pub ephemeral : ℕ → Option (List ℕ × List ℕ)

-- `_keypair`, and whether `_server` and `_msg_char` are set.
pub record Own : Type 0 where
  pub keypair : BitchatKeypair
  pub server : Bool

-- A text is cut to 240 bytes.
abbrev pub cut_text : List ℕ → List ℕ
cut_text text = take bitchat_max_text_len text

-- The TLVs of an announcement.
unfoldable pub announcement : List ℕ → BitchatKeypair → List ℕ
announcement nick kp =
    tlv_encode bitchat_tlv_nickname (take 31 nick)
    ++ (tlv_encode bitchat_tlv_noise_pubkey kp.noise_public
        ++ tlv_encode bitchat_tlv_signing_pubkey kp.sign_public)

abbrev pub or_default : ℕ → ℕ
or_default m = if ltb 0 m then m else bitchat_ble_mtu

module _ (r : Radio) where
  -- A packet of an identity; `packet_of` is signed and not padded.
  unfoldable pub packet_of : BitchatKeypair → ℕ → List ℕ → List ℕ
  packet_of kp type payload =
      signed_packet r.signer type r.epoch_ms bitchat_flag_has_signature kp.fingerprint payload
        kp.sign_private

  module _ (o : Own) where
    -- Three bytes are the header of the attribute protocol.
    abbrev pub peer_mtu : PeerSession → ℕ
    peer_mtu p =
        if p.we_are_central && p.client
        then or_default (r.client_mtu p.conn_handle - 3)
        else if o.server
        then or_default (r.server_mtu - 3)
        else bitchat_ble_mtu

    -- A notification goes to all that subscribed.
    unfoldable pub deliver : PeerSession → List ℕ → List Effect
    deliver p bytes =
        if p.we_are_central && p.remote_chr
        then write_value p.conn_handle bytes ∷ []
        else if o.server
        then notify bytes ∷ []
        else []

    -- A fragment is never fragmented again.
    unfoldable pub deliver_fragments : PeerSession → List (List ℕ) → List Effect
    unfolding deliver packet_of
    deliver_fragments p [] = []
    deliver_fragments p (payload ∷ payloads) =
        deliver p (pad_packet (packet_of o.keypair bitchat_pkt_fragment payload) 2048)
        ++ deliver_fragments p payloads

    unfoldable pub send_to_peer : PeerSession → List ℕ → List Effect
    unfolding deliver deliver_fragments
    send_to_peer p bytes =
        if ltb (peer_mtu p) (length bytes) && not (get_or bytes 1 0 == bitchat_pkt_fragment)
        then deliver_fragments p (fragment_payloads (r.frag_id p.conn_handle bytes) bytes)
        else deliver p bytes

    unfoldable pub send_to_all : List ℕ → List PeerSession → List Effect
    unfolding send_to_peer
    send_to_all bytes [] = []
    send_to_all bytes (p ∷ ps) =
        (if p.active then send_to_peer p bytes else []) ++ send_to_all bytes ps

    abbrev pub any_active : List PeerSession → Bool
    any_active [] = false
    any_active (p ∷ ps) = p.active || any_active ps

    unfoldable pub announce_packet : List ℕ
    unfolding packet_of announcement
    announce_packet =
        pad_packet (packet_of o.keypair bitchat_pkt_announce (announcement bridge_name o.keypair))
          512

    unfoldable pub send_announce : PeerSession → PeerSession × List Effect
    unfolding announce_packet send_to_peer
    send_announce p = (record p { announce_sent = true }, send_to_peer p announce_packet)

    unfoldable pub send_leave : List PeerSession → List Effect
    unfolding packet_of send_to_all
    send_leave peers = send_to_all (packet_of o.keypair bitchat_pkt_leave []) peers

    unfoldable pub send_handshake_packet : PeerSession → List ℕ → List Effect
    unfolding packet_of send_to_peer
    send_handshake_packet p payload =
        send_to_peer p (packet_of o.keypair bitchat_pkt_noise_handshake payload)

    -- The header is the associated data; it holds the length that the ciphertext will have.
    abbrev pub encrypted_header : ℕ → List ℕ
    encrypted_header pt_len =
        packet_header bitchat_pkt_noise_encrypted r.epoch_ms bitchat_flag_has_signature
          (pt_len + 16)

    abbrev pub encrypted_packet : ℕ → List ℕ → List ℕ
    encrypted_packet pt_len ct =
        let body =
          encrypted_header pt_len ++ (take bitchat_sender_id_len o.keypair.fingerprint ++ ct) in
        body ++ r.signer.sign body o.keypair.sign_private

    abbrev pub send_sealed : PeerSession → ℕ → Handshake × Ret (List ℕ) → PeerSession × List Effect
    send_sealed p pt_len (hs, ok ct) =
        let p' = record p { hs = hs } in (p', send_to_peer p' (encrypted_packet pt_len ct))
    send_sealed p pt_len (hs, err e) = (record p { hs = hs }, [])

    unfoldable pub send_encrypted : PeerSession → ℕ → List ℕ → PeerSession × List Effect
    unfolding send_to_peer
    send_encrypted p noise_type inner =
        let pt = noise_type ∷ inner in
        if ltb 512 (length pt)
        then (p, [])
        else send_sealed p (length pt) (hs_encrypt r.crypto (encrypted_header (length pt)) pt p.hs)

    -- `PrivateMessagePacket`: the ID of the message, then its text.
    unfoldable pub private_message : List ℕ → List ℕ → List ℕ
    private_message message_id text =
        tlv_encode bitchat_tlv_message_id message_id
        ++ tlv_encode bitchat_tlv_content (cut_text text)

    unfoldable pub message_packet : BitchatKeypair → List ℕ → List ℕ
    unfolding packet_of
    message_packet kp text =
        packet_of kp bitchat_pkt_message (tlv_encode bitchat_tlv_text (cut_text text))

    unfoldable pub send_text_to : List ℕ → PeerSession → PeerSession × List Effect
    unfolding send_encrypted private_message message_packet send_to_peer
    send_text_to text p =
        if not p.active
        then (p, [])
        else if is_transport p.hs.phase
        then send_encrypted p noise_payload_private_msg
            (private_message (take 16 (r.message_id p.conn_handle)) text)
        else (p, send_to_peer p (pad_packet (message_packet o.keypair text) 2048))

    unfoldable pub send_text_to_all : List ℕ → List PeerSession → List PeerSession × List Effect
    unfolding send_text_to
    send_text_to_all text [] = ([], [])
    send_text_to_all text (p ∷ ps) =
        let (p', out) = send_text_to text p in
        let (ps', outs) = send_text_to_all text ps in (p' ∷ ps', out ++ outs)

    -- The packet is recorded as seen before it is padded, and goes to all peers.
    unfoldable pub broadcast : List ℕ → ℕ → List PeerSession → Relay → Relay × List Effect
    unfolding send_to_all
    broadcast packet buf_size peers relay = (
      relay_record r.now (relay_hash packet) relay,
      send_to_all (pad_packet packet buf_size) peers,
    )

    -- No caller is in the file.
    unfoldable pub send_packet : ℕ → ℕ → List ℕ → List PeerSession → Relay → Relay × List Effect
    unfolding broadcast
    send_packet type flags payload peers relay =
        broadcast
          (signed_packet r.signer type r.epoch_ms
            (if flags / 2 % 2 == 1 then flags else flags + bitchat_flag_has_signature)
            o.keypair.fingerprint payload o.keypair.sign_private)
          2048 peers relay

    unfoldable pub text_as :
        List ℕ → BitchatKeypair → List PeerSession → Relay → Relay × List Effect
    unfolding broadcast message_packet
    text_as text identity peers relay = broadcast (message_packet identity text) 2048 peers relay

    -- `name` is `none` for a null pointer.
    unfoldable pub announce_as :
        BitchatKeypair → Option (List ℕ) → List PeerSession → Relay → Relay × List Effect
    unfolding broadcast packet_of announcement
    announce_as identity name peers relay =
        let nick = elim name as (λ n. List ℕ) [ none ↦ codes "mesh_user" | some n ↦ n ] in
        broadcast (packet_of identity bitchat_pkt_announce (announcement nick identity)) 512 peers
          relay
