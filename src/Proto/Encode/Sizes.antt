-- ===== src/Proto/Encode/Sizes.antt =====
-- How many bytes the encoders write, against the buffers that their callers pass.
use bitchat_meshtastic.Prelude.{ℕ, ◌+◌, ◌≤◌, ◌<◌, ◌≡◌, arith, List, ◌++◌, length}
use bitchat_meshtastic.Prelude.{length-append}
use bitchat_meshtastic.Proto.Varint.{encode_varint}
use bitchat_meshtastic.Proto.Varint.Bounds.{length-encode_varint, length-encode_varint_one}
use bitchat_meshtastic.Proto.Encode.{
  encode_tag, encode_fixed32, encode_varint_field, encode_bytes_field, encode_data,
  encode_mesh_packet, encode_to_radio_packet,
}

-- Field numbers below 16 take a tag of one byte.
length-encode_tag_one : (num wire : ℕ) → num < 16 → wire < 8 → length (encode_tag num wire) ≡ 1
unfolding encode_tag
length-encode_tag_one num wire hn hw = length-encode_varint_one _ (omega arith)

pub length-encode_fixed32 : (num v : ℕ) → num < 16 → length (encode_fixed32 num v) ≡ 5
unfolding encode_fixed32
length-encode_fixed32 num v hn =
    rw length-append (omega (arith, length-encode_tag_one num 5 hn (omega arith)))

pub length-encode_varint_field :
    (num v : ℕ) → num < 16 → length (encode_varint_field num v) ≡ 1 + length (encode_varint v)
unfolding encode_varint_field
length-encode_varint_field num v hn =
    rw length-append (omega (arith, length-encode_tag_one num 0 hn (omega arith)))

pub length-encode_bytes_field :
    (num : ℕ) (bs : List ℕ)
    → num < 16
    → length (encode_bytes_field num bs) ≡ 1 + length (encode_varint (length bs)) + length bs
unfolding encode_bytes_field
length-encode_bytes_field num bs hn = omega (
  arith,
  length-append (encode_tag num 2) (encode_varint (length bs) ++ bs),
  length-append (encode_varint (length bs)) bs,
  length-encode_tag_one num 2 hn (omega arith),
)

length-encode_data_exact :
    (portnum : ℕ) (payload : List ℕ)
    → length (encode_data portnum payload)
      ≡ 2
        + length (encode_varint portnum)
        + length (encode_varint (length payload))
        + length payload
unfolding encode_data
length-encode_data_exact portnum payload = omega (
  arith,
  length-append (encode_varint_field 1 portnum) (encode_bytes_field 2 payload),
  length-encode_varint_field 1 portnum (omega arith),
  length-encode_bytes_field 2 payload (omega arith),
)

pub length-encode_data :
    (portnum : ℕ) (payload : List ℕ) → length (encode_data portnum payload) ≤ length payload + 20
length-encode_data portnum payload = omega (
  arith,
  length-encode_data_exact portnum payload,
  length-encode_varint portnum,
  length-encode_varint (length payload),
)

-- The header fields of a packet take at most 28 bytes, and the length of `data_buf` comes on top.
length-encode_mesh_packet_exact :
    (from to id channel hop_limit : ℕ) (data_buf : List ℕ)
    → length (encode_mesh_packet from to id channel hop_limit data_buf)
      ≤ 28 + length (encode_varint (length data_buf)) + length data_buf
unfolding encode_mesh_packet
length-encode_mesh_packet_exact from to id channel hop_limit data_buf = simp length-append (
    ground (
      arith,
      length-encode_fixed32 1 from (omega arith),
      length-encode_fixed32 2 to (omega arith),
      length-encode_varint_field 3 channel (omega arith),
      length-encode_varint channel,
      length-encode_tag_one 4 2 (omega arith) (omega arith),
      length-encode_fixed32 6 id (omega arith),
      length-encode_varint_field 9 hop_limit (omega arith),
      length-encode_varint hop_limit,
    ))

pub length-encode_mesh_packet :
    (from to id channel hop_limit : ℕ) (data_buf : List ℕ)
    → length (encode_mesh_packet from to id channel hop_limit data_buf) ≤ length data_buf + 33
length-encode_mesh_packet from to id channel hop_limit data_buf = omega (
  arith,
  length-encode_mesh_packet_exact from to id channel hop_limit data_buf,
  length-encode_varint (length data_buf),
)

pub length-encode_to_radio_packet :
    (packet : List ℕ)
    → length (encode_to_radio_packet packet)
      ≡ 1 + length (encode_varint (length packet)) + length packet
unfolding encode_to_radio_packet
length-encode_to_radio_packet packet = omega (
  arith,
  length-append (encode_tag 1 2) (encode_varint (length packet) ++ packet),
  length-append (encode_varint (length packet)) packet,
  length-encode_tag_one 1 2 (omega arith) (omega arith),
)

-- A payload of at most 233 bytes (MESH_DATA_MAX) leaves the Data, the MeshPacket and the ToRadio
-- message, in that order of nesting, within buffers of 512 bytes (MESH_MAX_PAYLOAD).
pub buffers_suffice :
    (portnum from to id channel hop_limit : ℕ) (payload : List ℕ)
    → length payload ≤ 233
    → let data_buf = encode_data portnum payload in
      let packet = encode_mesh_packet from to id channel hop_limit data_buf in
      (length data_buf ≤ 512)
      × (length packet ≤ 512)
      × (length (encode_to_radio_packet packet) ≤ 512)
buffers_suffice portnum from to id channel hop_limit payload h =
    let data_buf : List ℕ = encode_data portnum payload in
    let packet : List ℕ = encode_mesh_packet from to id channel hop_limit data_buf in
    let d : length data_buf ≤ 253 = omega (arith, length-encode_data portnum payload) in
    let p : length packet ≤ 286 =
      omega (arith, length-encode_mesh_packet from to id channel hop_limit data_buf) in
    let t : length (encode_to_radio_packet packet) ≤ 292 =
      omega (arith, length-encode_to_radio_packet packet, length-encode_varint (length packet)) in
    (omega (arith, d), omega (arith, p), omega (arith, t))
