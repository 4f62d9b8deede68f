-- ===== src/Ble/Packet/RoundTrip.antt =====
-- A packet that was built is read back.
use bitchat_meshtastic.Prelude.{
  ℕ, set, ap, ◌∙◌, ◌+◌, ◌-◌, ◌*◌, ◌/◌, ◌%◌, ◌≤◌, ◌<◌, ◌≡◌, refl, arith, ◌==◌, false, some, List,
  ◌++◌, length, take, drop, length-append, length-take, drop-append, take-append, append_assoc,
  append-nil,
}
use bitchat_meshtastic.Proto.Field.{slice}
use bitchat_meshtastic.Ble.Padding.{pad_target, pad_packet, unpad_packet, unpad_packet-pad_packet}
use bitchat_meshtastic.Ble.Packet.{
  Signer, packet_header, packet_body, signed_packet, Packet, read_packet,
}

-- What a packet of a sender says.
abbrev pub packet_read : ℕ → ℕ → List ℕ → List ℕ → Packet
packet_read type flags fingerprint payload = record {
  type = type;
  ttl = 7;
  flags = flags;
  header_len = 14;
  sender_id = take 8 fingerprint;
  offset = 22;
  payload_len = length payload;
  payload = slice payload;
}

abbrev front : List ℕ → List ℕ → List ℕ → List ℕ
front fingerprint payload sig = take 8 fingerprint ++ (payload ++ sig)

length-front :
    (fingerprint payload sig : List ℕ)
    → 8 ≤ length fingerprint
    → length (front fingerprint payload sig) ≡ 8 + length payload + length sig
length-front fp payload sig h =
    omega (
      arith,
      length-append (take 8 fp) (payload ++ sig),
      length-append payload sig,
      length-take 8 fp,
    )

pub body-split :
    (type ts flags : ℕ) (fingerprint payload sig : List ℕ)
    → packet_body type ts flags fingerprint payload ++ sig
      ≡ packet_header type ts flags (length payload) ++ front fingerprint payload sig
unfolding packet_body packet_header
body-split type ts flags fp payload sig = simp append_assoc

-- The same with any TTL.
pub read_packet-set_ttl :
    (type ts flags ttl : ℕ) (fingerprint payload sig : List ℕ)
    → 8 ≤ length fingerprint
    → length payload < 65536
    → flags % 2 ≡ 0
    → read_packet (set (packet_body type ts flags fingerprint payload ++ sig) 2 ttl)
      ≡ some (record (packet_read type flags fingerprint payload) { ttl = ttl })
unfolding read_packet packet_header
read_packet-set_ttl type ts flags ttl fp payload sig hf hp hr =
    let n : length payload / 256 % 256 * 256 + length payload % 256 ≡ length payload =
      omega arith in
    let no_recipient : (flags / 1 % 2 == 1) ≡ false = ground arith in
    let whole : length (front fp payload sig) ≡ 8 + length payload + length sig =
      length-front fp payload sig hf in
    let eight : 8 ≡ length (take 8 fp) = omega (arith, length-take 8 fp) in
    let sender : take 8 (front fp payload sig) ≡ take 8 fp =
      take-append (take 8 fp) (payload ++ sig) 8 eight in
    let tail : drop 8 (front fp payload sig) ≡ payload ++ sig =
      drop-append (take 8 fp) (payload ++ sig) 8 eight in
    rw
      (
        body-split type ts flags fp payload sig,
        n,
        no_recipient,
        whole,
        sender,
        tail,
        take-append payload sig (length payload) refl,
      )
      (ground arith)

pub read_packet-packet_body :
    (type ts flags : ℕ) (fingerprint payload sig : List ℕ)
    → 8 ≤ length fingerprint
    → length payload < 65536
    → flags % 2 ≡ 0
    → read_packet (packet_body type ts flags fingerprint payload ++ sig)
      ≡ some (packet_read type flags fingerprint payload)
read_packet-packet_body type ts flags fp payload sig hf hp hr =
    ap read_packet (same type ts flags fp payload sig)
    ∙ read_packet-set_ttl type ts flags 7 fp payload sig hf hp hr
  where
    same :
        (type ts flags : ℕ) (fp payload sig : List ℕ)
        → packet_body type ts flags fp payload ++ sig
          ≡ set (packet_body type ts flags fp payload ++ sig) 2 7
    same type ts flags fp payload sig = unfold packet_body packet_header in refl

pub length-packet_body :
    (type ts flags : ℕ) (fingerprint payload sig : List ℕ)
    → 8 ≤ length fingerprint
    → length (packet_body type ts flags fingerprint payload ++ sig)
      ≡ 22 + length payload + length sig
unfolding packet_header
length-packet_body type ts flags fp payload sig h =
    rw (body-split type ts flags fp payload sig) (omega (arith, length-front fp payload sig h))

-- Where the padding is of at most 255 bytes.
pub unpad-signed :
    (pkt : List ℕ) (buf_size : ℕ)
    → length pkt < pad_target (length pkt) buf_size
    → pad_target (length pkt) buf_size ≤ length pkt + 255
    → unpad_packet (pad_packet pkt buf_size) ≡ pkt
unpad-signed pkt buf_size h short =
    let none_left : (pad_target (length pkt) buf_size - length pkt)
          - (pad_target (length pkt) buf_size - length pkt) % 256
        ≡ 0 =
      omega arith in
    rw (unpad_packet-pad_packet pkt buf_size h, none_left) (append-nil pkt)

-- A packet of any type but with no recipient, whose signature has 64 bytes and whose payload fits into the
-- buffer with at most 255 and at least one byte of padding, is unpadded and read back: type, flags, the
-- first eight bytes of the fingerprint, and the payload.
pub read_packet-signed_packet :
    (s : Signer) (type ts flags buf_size : ℕ) (fingerprint payload key : List ℕ)
    → 8 ≤ length fingerprint
    → length payload < 65536
    → flags % 2 ≡ 0
    → length (signed_packet s type ts flags fingerprint payload key)
      < pad_target (length (signed_packet s type ts flags fingerprint payload key)) buf_size
    → pad_target (length (signed_packet s type ts flags fingerprint payload key)) buf_size
      ≤ length (signed_packet s type ts flags fingerprint payload key) + 255
    → read_packet
        (unpad_packet (pad_packet (signed_packet s type ts flags fingerprint payload key) buf_size))
      ≡ some (packet_read type flags fingerprint payload)
unfolding signed_packet
read_packet-signed_packet s type ts flags buf_size fp payload key hf hp hr room short =
    rw (unpad-signed (signed_packet s type ts flags fp payload key) buf_size room short) (
      read_packet-packet_body type ts flags fp payload
        (s.sign (packet_body type ts flags fp payload) key) hf hp hr)
