-- ===== src/Ble/Handle/Private/Layout.antt =====
-- The bytes of a private message and of the packet that carries it.
use bitchat_meshtastic.Prelude.{
  ℕ, ◌+◌, ◌≤◌, ◌<◌, ◌≡◌, refl, sym, ap, ◌∙◌, arith, some, List, [], ◌∷◌, ◌++◌, length, take,
  append-nil, length-take, length-append,
}
use bitchat_meshtastic.Ble.Tlv.{
  tlv_encode, length-tlv_encode, tlv_find, write_tlvs, tlv_find-write_tlvs,
}
use bitchat_meshtastic.Ble.Packet.{packet_header, packet_body, read_packet}
use bitchat_meshtastic.Ble.Packet.RoundTrip.{packet_read, read_packet-packet_body}
use bitchat_meshtastic.Ble.Send.{
  Radio, Own, cut_text, encrypted_header, encrypted_packet, private_message,
}

module _ (id text : List ℕ) (hi : length id ≤ 255) where
  short : length (cut_text text) ≤ 255
  short = omega (arith, length-take 240 text)

  tlvs : List (ℕ × List ℕ)
  tlvs = (0, id) ∷ (1, cut_text text) ∷ []

  module _ (r : Radio) (o : Own) where
    private_message-tlvs : private_message r o id text ≡ write_tlvs tlvs
    unfolding private_message tlvs
    private_message-tlvs = rw (append-nil (tlv_encode 1 (cut_text text))) refl

    pub private_message-content : tlv_find (private_message r o id text) 1 ≡ some (cut_text text)
    unfolding tlvs
    private_message-content =
        ap (λ buf. tlv_find buf 1) private_message-tlvs
        ∙ tlv_find-write_tlvs 1 tlvs (hi, (short, tt))

    pub private_message-id : tlv_find (private_message r o id text) 0 ≡ some id
    unfolding tlvs
    private_message-id =
        ap (λ buf. tlv_find buf 0) private_message-tlvs
        ∙ tlv_find-write_tlvs 0 tlvs (hi, (short, tt))

    pub length-private_message : length (private_message r o id text) ≤ 244 + length id
    unfolding private_message
    length-private_message = omega (
      arith,
      length-append (tlv_encode 0 id) (tlv_encode 1 (cut_text text)),
      length-tlv_encode 0 id hi,
      length-tlv_encode 1 (cut_text text) short,
      length-take 240 text,
    )

-- The packet that carries the ciphertext is read back, and its first 14 bytes are the associated data.
pub encrypted_packet-read :
    (r : Radio) (o : Own) (n : ℕ) (ct : List ℕ)
    → length ct ≡ n + 16
    → n + 16 < 65536
    → 8 ≤ length o.keypair.fingerprint
    → (read_packet (encrypted_packet r o n ct) ≡ some (packet_read 0x11 2 o.keypair.fingerprint ct))
      × (take 14 (encrypted_packet r o n ct) ≡ encrypted_header r o n)
unfolding packet_body packet_header
encrypted_packet-read r o n ct size small hf = (
  ap
        (λ k. read_packet (
          (packet_header 0x11 r.epoch_ms 2 k ++ (take 8 o.keypair.fingerprint ++ ct))
          ++ r.signer.sign (encrypted_header r o n ++ (take 8 o.keypair.fingerprint ++ ct))
              o.keypair.sign_private))
        (sym size)
      ∙ read_packet-packet_body 0x11 r.epoch_ms 2 o.keypair.fingerprint ct
          (r.signer.sign (encrypted_header r o n ++ (take 8 o.keypair.fingerprint ++ ct))
            o.keypair.sign_private)
          hf (omega (arith, size)) refl,
  refl,
)
