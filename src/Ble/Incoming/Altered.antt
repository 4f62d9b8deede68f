-- ===== src/Ble/Incoming/Altered.antt =====
-- Packets that are altered on their way: the TTL that a relay lowers, and the last byte that is taken for
-- padding.
use bitchat_meshtastic.Prelude.{
  ℕ, ◌+◌, ◌-◌, ◌%◌, ◌^◌, ◌≤◌, ◌<◌, ◌≡◌, refl, sym, ap, ◌∙◌, arith, ltb, true, false, Option, some,
  List, [], ◌∷◌, ◌++◌, length, get_or, set, take, drop, append-nil, append_assoc, length-set,
  take-append, drop-append,
}
use bitchat_meshtastic.Proto.Field.{slice, is_negative}
use bitchat_meshtastic.Ble.Tlv.{tlv_find}
use bitchat_meshtastic.Ble.Padding.{pad_target, pad_packet, unpad_packet, unpad_tail}
use bitchat_meshtastic.Ble.Queue.{RxEntry}
use bitchat_meshtastic.Ble.Relay.{decrement_ttl}
use bitchat_meshtastic.Ble.Packet.{
  Packet, packet_header, packet_body, signed_packet, drop_it, announced_key, checked_with,
  check_signature,
}
use bitchat_meshtastic.Ble.Packet.RoundTrip.{
  packet_read, read_packet-packet_body, read_packet-set_ttl, length-packet_body, unpad-signed,
}
use bitchat_meshtastic.Ble.Peers.{zero_peer, find_peer}
use bitchat_meshtastic.Ble.Send.{Radio}
use bitchat_meshtastic.Ble.Incoming.{BitchatBle, identified, clock_set, with_peer, process_incoming}
use bitchat_meshtastic.Ble.Incoming.Checks.{process_incoming-checked}

-- A packet that is sent without padding and whose signature ends in the byte 1 loses that byte at the receiver, which
-- takes it for padding: the packet is dropped as too short for its signature, whatever its type and its key.
pub unpadded_packet-dropped :
    (r : Radio) (entry : RxEntry) (st : BitchatBle) (i type ts : ℕ)
    (fingerprint payload sig private_key : List ℕ)
    → entry.bytes ≡ signed_packet r.signer type ts 2 fingerprint payload private_key
    → r.signer.sign (packet_body type ts 2 fingerprint payload) private_key ≡ sig ++ (1 ∷ [])
    → length sig ≡ 63
    → find_peer entry.conn_handle st.peers ≡ some i
    → 8 ≤ length fingerprint
    → length payload < 65536
    → (pkt : List ℕ) × (process_incoming r entry st
        ≡ some (
          with_peer r i (identified (take 8 fingerprint) (get_or st.peers i zero_peer)) st,
          clock_set r pkt ++ [],
        ))
unpadded_packet-dropped r entry st i type ts fp payload sig key whole signed short known hf hp = (
  packet_body type ts 2 fp payload ++ sig,
  process_incoming-checked r entry st (packet_body type ts 2 fp payload ++ sig)
      (packet_read type 2 fp payload) i drop_it (ap unpad_packet whole ∙ stripped)
      (read_packet-packet_body type ts 2 fp payload sig hf hp refl) known
      (cut (get_or st.peers i zero_peer).sign_pubkey),
)
  where
    stripped :
        unpad_packet (signed_packet r.signer type ts 2 fp payload key)
        ≡ packet_body type ts 2 fp payload ++ sig
    stripped =
        unfold signed_packet in
        rw (signed, ← append_assoc (packet_body type ts 2 fp payload) sig (1 ∷ []))
          (unpad_tail (packet_body type ts 2 fp payload ++ sig) 1 (omega arith) ∙ append-nil _)

    cut :
        (known : Option (List ℕ))
        → check_signature r.signer
            (packet_read type 2 fp payload)
            (packet_body type ts 2 fp payload ++ sig)
            known
          ≡ drop_it
    cut known =
        let n : (22 + length payload + 64) % 2 ^ 32 ≡ 86 + length payload = omega arith in
        let few : ltb (length (packet_body type ts 2 fp payload ++ sig)) (86 + length payload)
            ≡ true =
          ground (arith, length-packet_body type ts 2 fp payload sig hf) in
        let fits : is_negative (86 + length payload) ≡ false = ground arith in
        unfold check_signature in rw (n, few, fits) refl

-- An announcement is signed with its TTL. When a relay has lowered the TTL, the receiver that finds the key in the
-- announcement, and for which the signature is not valid for the altered packet, drops it.
pub relayed_announce-dropped :
    (r : Radio) (entry : RxEntry) (st : BitchatBle) (i ts : ℕ)
    (fingerprint payload private_key key : List ℕ)
    → entry.bytes
      ≡ pad_packet
          (decrement_ttl (signed_packet r.signer 1 ts 2 fingerprint payload private_key))
          2048
    → let body = packet_body 1 ts 2 fingerprint payload in
      length (r.signer.sign body private_key) ≡ 64
      → tlv_find payload 3 ≡ some key
      → length key ≡ 32
      → r.signer.verify (r.signer.sign body private_key) (set body 2 6) key ≡ false
      → find_peer entry.conn_handle st.peers ≡ some i
      → 8 ≤ length fingerprint
      → length payload ≤ 169
      → process_incoming r entry st
        ≡ some (
          with_peer r i (identified (take 8 fingerprint) (get_or st.peers i zero_peer)) st,
          clock_set r (set (body ++ r.signer.sign body private_key) 2 6) ++ [],
        )
relayed_announce-dropped r entry st i ts fp payload priv key whole full found long bad known hf hp =
    process_incoming-checked r entry st lowered p i drop_it (ap unpad_packet whole ∙ unpadded)
      (read_packet-set_ttl 1 ts 2 6 fp payload sig hf (omega arith) refl) known
      (refused (get_or st.peers i zero_peer).sign_pubkey)
  where
    body : List ℕ
    body = packet_body 1 ts 2 fp payload

    sig : List ℕ
    sig = r.signer.sign body priv

    lowered : List ℕ
    lowered = set (body ++ sig) 2 6

    p : Packet
    p = record (packet_read 1 2 fp payload) { ttl = 6 }

    length-lowered : length lowered ≡ 86 + length payload
    length-lowered =
        omega
          (arith, full, length-set (body ++ sig) 2 6, length-packet_body 1 ts 2 fp payload sig hf)

    unpadded :
        unpad_packet
          (pad_packet (decrement_ttl (signed_packet r.signer 1 ts 2 fp payload priv)) 2048)
        ≡ lowered
    unpadded =
        let room : length lowered < pad_target (length lowered) 2048 =
          unfold pad_target in ground (arith, length-lowered) in
        let short : pad_target (length lowered) 2048 ≤ length lowered + 255 =
          unfold pad_target in ground (arith, length-lowered) in
        let same : decrement_ttl (signed_packet r.signer 1 ts 2 fp payload priv) ≡ lowered =
          unfold signed_packet packet_body packet_header in refl in
        ap (λ pkt. unpad_packet (pad_packet pkt 2048)) same ∙ unpad-signed lowered 2048 room short

    announced : announced_key r.signer (slice payload) ≡ some key
    announced = rw (found, announced_key) (rw long refl)

    refused : (known : Option (List ℕ)) → check_signature r.signer p lowered known ≡ drop_it
    refused known =
        let n : (22 + length payload + 64) % 2 ^ 32 ≡ 86 + length payload = omega arith in
        let l : length body ≡ 22 + length payload =
          ap length (sym (append-nil body))
          ∙ length-packet_body 1 ts 2 fp payload [] hf
          ∙ omega arith in
        let at : length lowered - 64 ≡ length (set body 2 6) =
          omega (arith, length-lowered, l, length-set body 2 6) in
        let enough : ltb (length lowered) (86 + length payload) ≡ false =
          ground (arith, length-lowered) in
        let here : ltb (length lowered) 64 ≡ false = ground (arith, length-lowered) in
        let split : lowered ≡ set body 2 6 ++ sig = unfold packet_body packet_header in refl in
        let tail : drop (length lowered - 64) lowered ≡ sig =
          ap (drop (length lowered - 64)) split
          ∙ drop-append (set body 2 6) sig (length lowered - 64) at in
        let front : take (length lowered - 64) lowered ≡ set body 2 6 =
          ap (take (length lowered - 64)) split
          ∙ take-append (set body 2 6) sig (length lowered - 64) at in
        let needed : is_negative (86 + length payload) ≡ false = ground arith in
        unfold check_signature in
        rw (n, enough, needed)
          (ap (checked_with r.signer lowered) announced ∙ rw (here, tail, front, bad) refl)
