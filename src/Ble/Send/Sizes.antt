-- ===== src/Ble/Send/Sizes.antt =====
-- The buffers that packets are built in.
use bitchat_meshtastic.Prelude.{
  ℕ, ◌+◌, ◌≤◌, ◌≡◌, arith, List, [], ◌++◌, length, take, length-append, length-take,
}
use bitchat_meshtastic.Ble.Tlv.{tlv_encode, length-tlv_encode_le}
use bitchat_meshtastic.Ble.Packet.{Signer, packet_body, signed_packet}
use bitchat_meshtastic.Ble.Packet.RoundTrip.{length-packet_body}
use bitchat_meshtastic.Ble.Identity.{BitchatKeypair}
use bitchat_meshtastic.Ble.Send.{
  Radio, Own, cut_text, announcement, packet_of, private_message, message_packet,
}

-- Signatures have 64 bytes, and an identity has keys of 32 bytes.
abbrev pub Signs : Signer → Type 0
Signs s = (body key : List ℕ) → length (s.sign body key) ≡ 64

abbrev pub IsIdentity : BitchatKeypair → Type 0
IsIdentity kp =
    (length kp.noise_public ≡ 32) × (length kp.sign_public ≡ 32) × (length kp.fingerprint ≡ 32)

pub length-packet_of :
    (r : Radio) (kp : BitchatKeypair) (type : ℕ) (payload : List ℕ)
    → Signs r.signer
    → IsIdentity kp
    → length (packet_of r kp type payload) ≡ 86 + length payload
unfolding packet_of signed_packet
length-packet_of r kp type payload signs (np, sp, fp) = omega (
  arith,
  length-packet_body type r.epoch_ms 2 kp.fingerprint payload
      (r.signer.sign (packet_body type r.epoch_ms 2 kp.fingerprint payload) kp.sign_private)
      (omega (arith, fp)),
  signs (packet_body type r.epoch_ms 2 kp.fingerprint payload) kp.sign_private,
)

length-announcement :
    (nick : List ℕ) (kp : BitchatKeypair) → IsIdentity kp → length (announcement nick kp) ≤ 101
unfolding announcement
length-announcement nick kp (np, sp, fp) = omega (
  arith,
  np,
  sp,
  length-append (tlv_encode 1 (take 31 nick))
      (tlv_encode 2 kp.noise_public ++ tlv_encode 3 kp.sign_public),
  length-append (tlv_encode 2 kp.noise_public) (tlv_encode 3 kp.sign_public),
  length-tlv_encode_le 1 (take 31 nick),
  length-tlv_encode_le 2 kp.noise_public,
  length-tlv_encode_le 3 kp.sign_public,
  length-take 31 nick,
)

-- What is built fits the arrays on the stack, whatever the name and the text are, where signatures have 64 bytes and
-- keys 32: an announcement 128 bytes of TLVs and 512 of packet, a leave 256, a message 2048, and the inside of
-- a private message with an ID of 16 bytes 320.
pub packets_fit :
    (r : Radio) (o : Own) (kp : BitchatKeypair) (nick text id : List ℕ)
    → Signs r.signer
    → IsIdentity kp
    → (length (announcement nick kp) ≤ 128)
      × (length (packet_of r kp 1 (announcement nick kp)) ≤ 512)
      × (length (packet_of r kp 3 []) ≤ 256)
      × (length (message_packet r o kp text) ≤ 2048)
      × (length (private_message r o (take 16 id) text) ≤ 320)
unfolding message_packet private_message
packets_fit r o kp nick text id signs ok =
    let a : length (announcement nick kp) ≤ 101 = length-announcement nick kp ok in
    (
      omega (arith, a),
      omega (arith, a, length-packet_of r kp 1 (announcement nick kp) signs ok),
      omega (arith, length-packet_of r kp 3 [] signs ok),
      omega (
        arith,
        length-packet_of r kp 2 (tlv_encode 5 (cut_text text)) signs ok,
        length-tlv_encode_le 5 (cut_text text),
        length-take 240 text,
      ),
      omega (
        arith,
        length-append (tlv_encode 0 (take 16 id)) (tlv_encode 1 (cut_text text)),
        length-tlv_encode_le 0 (take 16 id),
        length-tlv_encode_le 1 (cut_text text),
        length-take 240 text,
        length-take 16 id,
      ),
    )
