-- ===== src/Ble/Incoming/Signed.antt =====
-- Messages that one bridge sends as an identity, and another one receives.
use bitchat_meshtastic.Prelude.{
  ℕ, ◌+◌, ◌-◌, ◌%◌, ◌^◌, ◌≤◌, ◌<◌, ◌≡◌, ◌≢◌, refl, arith, ltb, true, false, some, List, [], ◌∷◌,
  ◌++◌, length, get_or, take, drop, length-append, length-take, append-nil, take-append,
  drop-append,
}
use bitchat_meshtastic.Ble.Tlv.{tlv_encode, length-tlv_encode}
use bitchat_meshtastic.Ble.Padding.{pad_target, pad_packet}
use bitchat_meshtastic.Proto.Field.{is_negative}
use bitchat_meshtastic.Ble.Relay.{Relay}
use bitchat_meshtastic.Ble.Packet.{Signer, packet_body, signed_packet, pass, check_signature}
use bitchat_meshtastic.Ble.Packet.RoundTrip.{
  packet_read, read_packet-packet_body, length-packet_body, unpad-signed,
}
use bitchat_meshtastic.Ble.Identity.{BitchatKeypair}
use bitchat_meshtastic.Ble.Peers.{PeerSession, zero_peer, find_peer, Effect, on_message}
use bitchat_meshtastic.Ble.Send.{
  Radio, Own, cut_text, packet_of, message_packet, send_to_all, broadcast, text_as,
}
use bitchat_meshtastic.Ble.Send.Sizes.{Signs, IsIdentity}
use bitchat_meshtastic.Ble.Handle.{message_from}
use bitchat_meshtastic.Ble.Incoming.{BitchatBle, clock_set, process_incoming}
use bitchat_meshtastic.Ble.Incoming.Message.{message-accepted}

-- A message of 86 bytes and its payload, the last 64 of which are a signature that holds.
signed-passes :
    (s : Signer) (sender payload body sig key : List ℕ)
    → length sig ≡ 64
    → length body ≡ 22 + length payload
    → length payload < 65536
    → s.verify sig body key ≡ true
    → check_signature s (packet_read 2 2 sender payload) (body ++ sig) (some key) ≡ pass
unfolding check_signature
signed-passes s sender payload body sig key hs hb hp valid =
    let size : length (body ++ sig) ≡ length body + 64 =
      omega (arith, length-append body sig, hs) in
    let rest : length (body ++ sig) - 64 ≡ length body = omega (arith, size) in
    let whole : ltb (length (body ++ sig)) ((22 + length payload + 64) % 2 ^ 32) ≡ false =
      ground (arith, size, hb) in
    let positive : is_negative ((22 + length payload + 64) % 2 ^ 32) ≡ false = ground arith in
    let long : ltb (length (body ++ sig)) 64 ≡ false = ground (arith, size) in
    let last : drop (length (body ++ sig) - 64) (body ++ sig) ≡ sig =
      drop-append body sig (length (body ++ sig) - 64) rest in
    let first : take (length (body ++ sig) - 64) (body ++ sig) ≡ body =
      take-append body sig (length (body ++ sig) - 64) rest in
    rw (positive, whole, long, last, first, valid) refl

length-body :
    (type ts flags : ℕ) (fingerprint payload : List ℕ)
    → 8 ≤ length fingerprint
    → length (packet_body type ts flags fingerprint payload) ≡ 22 + length payload
length-body type ts flags fp payload h =
    rw (← append-nil (packet_body type ts flags fp payload))
      (omega (arith, length-packet_body type ts flags fp payload [] h))

-- The padding of a text of 1 to 240 bytes but 168 has 1 to 255 bytes.
pads :
    (n : ℕ)
    → 1 ≤ n
    → n ≤ 240
    → n ≢ 168
    → (88 + n < pad_target (88 + n) 2048) × (pad_target (88 + n) 2048 ≤ 88 + n + 255)
unfolding pad_target
pads n h1 h2 other = (ground arith, ground arith)

-- A text that `a` sends as an identity, and what `b` makes of the packet on a connection.
abbrev pub TextHeard :
    Radio
    → Radio
    → Own
    → BitchatKeypair
    → List PeerSession
    → Relay
    → BitchatBle
    → ℕ
    → List ℕ
    → Type 0
TextHeard a b o kp peers relay st conn text =
    let pkt = message_packet a o kp text in
    let bytes = pad_packet pkt 2048 in
    ((text_as a o text kp peers relay).1 ≡ send_to_all a o bytes peers)
    × ((name : List ℕ) × (st' : BitchatBle) × (outs : List Effect) × (process_incoming b
            (record { bytes = bytes; conn_handle = conn }) st
          ≡ some (
            st',
            clock_set b pkt
                ++ (on_message (message_from b.now (take 8 kp.fingerprint) name (cut_text text))
                    ∷ outs),
          )))

-- A text of at least one byte that one bridge sends as an identity goes to all its peers in one
-- padded packet. Another bridge that gets the packet in one write, on a connection whose peer has
-- announced the key of that identity, gives the text to its own bridge, cut to 240 bytes, with the
-- identity's ID for the sender. Signatures have 64 bytes and hold for that key, the keys have 32
-- bytes, and the text that is left has not 168 bytes, the length at which there is no padding.
pub text_as-heard :
    (a b : Radio) (o : Own) (kp : BitchatKeypair) (peers : List PeerSession) (relay : Relay)
    (st : BitchatBle) (conn i t : ℕ) (text key : List ℕ)
    → Signs a.signer
    → ((body : List ℕ) → b.signer.verify (a.signer.sign body kp.sign_private) body key ≡ true)
    → IsIdentity kp
    → find_peer conn st.peers ≡ some i
    → (get_or st.peers i zero_peer).sign_pubkey ≡ some key
    → length (cut_text (t ∷ text)) ≢ 168
    → TextHeard a b o kp peers relay st conn (t ∷ text)
unfolding text_as broadcast message_packet packet_of signed_packet
text_as-heard a b o kp peers relay st conn i t text key signs valid (np, sp, fp) known stored
      other =
    (
      refl,
      message-accepted b (record { bytes = pad_packet (body ++ sig) 2048; conn_handle = conn }) st i
          2 t (body ++ sig) kp.fingerprint (take 239 text)
          (unpad-signed (body ++ sig) 2048 (rw size sized.0) (rw size sized.1))
          (read_packet-packet_body 2 a.epoch_ms 2 kp.fingerprint payload sig (omega (arith, fp))
            (omega (arith, held, short)) refl)
          known
          (rw stored (
            signed-passes b.signer kp.fingerprint payload body sig key (signs body kp.sign_private)
              (length-body 2 a.epoch_ms 2 kp.fingerprint payload (omega (arith, fp)))
              (omega (arith, held, short)) (valid body)))
          (omega (arith, short)),
    )
  where
    payload : List ℕ
    payload = tlv_encode 5 (cut_text (t ∷ text))

    body : List ℕ
    body = packet_body 2 a.epoch_ms 2 kp.fingerprint payload

    sig : List ℕ
    sig = a.signer.sign body kp.sign_private

    short : length (cut_text (t ∷ text)) ≤ 240
    short = omega (arith, length-take 240 (t ∷ text))

    held : length payload ≡ 2 + length (cut_text (t ∷ text))
    held = length-tlv_encode 5 (cut_text (t ∷ text)) (omega (arith, short))

    size : length (body ++ sig) ≡ 88 + length (cut_text (t ∷ text))
    size = omega (
      arith,
      length-append body sig,
      held,
      signs body kp.sign_private,
      length-body 2 a.epoch_ms 2 kp.fingerprint payload (omega (arith, fp)),
    )

    sized :
        (88 + length (cut_text (t ∷ text)) < pad_target (88 + length (cut_text (t ∷ text))) 2048)
        × (pad_target (88 + length (cut_text (t ∷ text))) 2048
            ≤ 88 + length (cut_text (t ∷ text)) + 255)
    sized = pads (length (cut_text (t ∷ text))) (omega arith) short other
