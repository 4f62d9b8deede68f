-- ===== src/Ble/Packet.antt =====
-- The packets of src/bitchat/bitchat_ble.cpp: how every `_send_` function builds one, and how
-- `_process_incoming` takes one apart.
pub mod RoundTrip
pub mod Within
use bitchat_meshtastic.Prelude.{
  ℕ, ◌+◌, ◌-◌, ◌*◌, ◌/◌, ◌%◌, ◌^◌, ltb, leb, ◌==◌, if◌then◌else◌, Bool, true, false, not, ◌&&◌,
  ◌||◌, Option, none, some, List, [], ◌∷◌, ◌++◌, length, get_or, take, drop,
}
use bitchat_meshtastic.Config.{
  bitchat_max_hops, bitchat_header_v1_len, bitchat_header_v2_len, bitchat_sender_id_len,
  bitchat_pkt_announce, bitchat_flag_has_recipient, bitchat_flag_has_signature,
  bitchat_tlv_signing_pubkey,
}
use bitchat_meshtastic.Proto.Field.{Slice, slice, negative, is_negative, to_slice}
use bitchat_meshtastic.Ble.Tlv.{tlv_find}

-- Ed25519 (ed25519.h): a message is signed with a private key, a signature of a message is checked
-- against a public key, and a seed gives a public and a private key.
pub record Signer : Type 0 where
  pub sign : List ℕ → List ℕ → List ℕ
  pub verify : List ℕ → List ℕ → List ℕ → Bool
  pub create_keypair : List ℕ → List ℕ × List ℕ

-- The eight bytes of a uint64_t, the highest first.
unfoldable pub be64 : ℕ → List ℕ
be64 ts =
    ts / 2 ^ 56 % 256
    ∷ ts / 2 ^ 48 % 256
    ∷ ts / 2 ^ 40 % 256
    ∷ ts / 2 ^ 32 % 256
    ∷ ts / 2 ^ 24 % 256
    ∷ ts / 2 ^ 16 % 256
    ∷ ts / 2 ^ 8 % 256
    ∷ ts % 256
    ∷ []

-- Version, type, TTL, timestamp, flags and the length of the payload: 14 bytes.
unfoldable pub packet_header : ℕ → ℕ → ℕ → ℕ → List ℕ
unfolding be64
packet_header type ts flags payload_len =
    1 ∷ type ∷ bitchat_max_hops ∷ be64 ts
    ++ (flags ∷ payload_len / 256 % 256 ∷ payload_len % 256 ∷ [])

-- Header, sender and payload; every packet has the flag that says it is signed.
unfoldable pub packet_body : ℕ → ℕ → ℕ → List ℕ → List ℕ → List ℕ
packet_body type ts flags fingerprint payload =
    packet_header type ts flags (length payload)
    ++ (take bitchat_sender_id_len fingerprint ++ payload)

abbrev pub has_flag : ℕ → ℕ → Bool
has_flag flags flag = flags / flag % 2 == 1

-- What `_process_incoming` reads out of a packet.
pub record Packet : Type 0 where
  pub type : ℕ
  pub ttl : ℕ
  pub flags : ℕ
  pub header_len : ℕ
  pub sender_id : List ℕ
  pub offset : ℕ
  pub payload_len : ℕ
  pub payload : Slice

abbrev v2_len : List ℕ → ℕ
v2_len pkt =
    get_or pkt 12 0 * 2 ^ 24 + get_or pkt 13 0 * 2 ^ 16 + get_or pkt 14 0 * 2 ^ 8 + get_or pkt 15 0

abbrev v1_len : List ℕ → ℕ
v1_len pkt = get_or pkt 12 0 * 256 + get_or pkt 13 0

abbrev is_v2 : List ℕ → Bool
is_v2 pkt = leb 2 (get_or pkt 0 0)

abbrev header_len_of : List ℕ → ℕ
header_len_of pkt = if is_v2 pkt then bitchat_header_v2_len else bitchat_header_v1_len

-- The recipient is skipped.
abbrev payload_offset : List ℕ → ℕ
payload_offset pkt =
    header_len_of pkt
    + bitchat_sender_id_len
    + (if has_flag (get_or pkt 11 0) bitchat_flag_has_recipient then 8 else 0)

-- The test `offset + (int)payload_len > pkt_len`, where the length can be negative.
abbrev is_truncated : List ℕ → ℕ → Bool
is_truncated pkt len =
    if is_negative len
    then ltb (length pkt + (2 ^ 32 - len)) (payload_offset pkt)
    else ltb (length pkt) (payload_offset pkt + len)

-- `none` is a packet that is too short.
unfoldable pub read_packet : List ℕ → Option Packet
read_packet pkt =
    let len = (if is_v2 pkt then v2_len pkt else v1_len pkt) in
    if ltb (length pkt) (header_len_of pkt + bitchat_sender_id_len)
    then none
    else if is_truncated pkt len
    then none
    else some (record {
      type = get_or pkt 1 0;
      ttl = get_or pkt 2 0;
      flags = get_or pkt 11 0;
      header_len = header_len_of pkt;
      sender_id = take bitchat_sender_id_len (drop (header_len_of pkt) pkt);
      offset = payload_offset pkt;
      payload_len = len;
      payload = to_slice (drop (payload_offset pkt) pkt) len;
    })

-- The seconds of the timestamp, as a uint32_t; a packet of fewer than 11 bytes has none.
unfoldable pub packet_seconds : List ℕ → ℕ
packet_seconds pkt =
    if ltb (length pkt) 11
    then 0
    else ((get_or pkt 3 0 * 2 ^ 56
          + get_or pkt 4 0 * 2 ^ 48
          + get_or pkt 5 0 * 2 ^ 40
          + get_or pkt 6 0 * 2 ^ 32
          + get_or pkt 7 0 * 2 ^ 24
          + get_or pkt 8 0 * 2 ^ 16
          + get_or pkt 9 0 * 2 ^ 8
          + get_or pkt 10 0)
        / 1000
        % 2 ^ 32)

-- A negative length passes as 0: `_tlv_find` makes no round.
abbrev pub tlv_in : Slice → ℕ → Option (List ℕ)
tlv_in (slice bytes) type = tlv_find bytes type
tlv_in negative type = none

-- The packet goes on, it is dropped, or the signature is looked for in front of the packet.
pub data Verdict : Type 0 where
  pass drop_it outside : Verdict

module _ (s : Signer) where
  -- Header, sender, payload and signature, as every `_send_` function writes them.
  unfoldable pub signed_packet : ℕ → ℕ → ℕ → List ℕ → List ℕ → List ℕ → List ℕ
  signed_packet type ts flags fingerprint payload sign_private =
      let body = packet_body type ts flags fingerprint payload in body ++ s.sign body sign_private

  -- The signature is the last 64 bytes.
  abbrev pub signature_fits : List ℕ → List ℕ → Verdict
  signature_fits pkt key =
      if ltb (length pkt) 64
      then outside
      else if s.verify (drop (length pkt - 64) pkt) (take (length pkt - 64) pkt) key
      then pass
      else drop_it

  abbrev pub checked_with : List ℕ → Option (List ℕ) → Verdict
  checked_with pkt none = pass
  checked_with pkt (some key) = signature_fits pkt key

  -- The key of an announcement, if it has 32 bytes.
  abbrev pub announced_key : Slice → Option (List ℕ)
  announced_key payload = elim (tlv_in payload bitchat_tlv_signing_pubkey) [
    | none ↦ none
    | some key ↦ if length key == 32 then some key else none
  ]

  -- `known` is the key that the peer announced before. The sum `offset + payload_len + 64` is a
  -- uint32_t and is compared as an `int`.
  unfoldable pub check_signature : Packet → List ℕ → Option (List ℕ) → Verdict
  check_signature p pkt known =
      let needed = (p.offset + p.payload_len + 64) % 2 ^ 32 in
      let key = (if p.type == bitchat_pkt_announce then announced_key p.payload else known) in
      if not (has_flag p.flags bitchat_flag_has_signature)
      then pass
      else if not (is_negative needed) && ltb (length pkt) needed
      then drop_it
      else checked_with pkt key
