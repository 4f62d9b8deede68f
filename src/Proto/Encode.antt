-- ===== src/Proto/Encode.antt =====
-- The encoders of src/meshtastic/mesh_proto.h. Each returns the bytes that it writes from `buf` on;
-- the C function returns their number.
pub mod Sizes
use bitchat_meshtastic.Prelude.{ℕ, ◌+◌, ◌*◌, ◌==◌, if◌then◌else◌, Option, none, some}
use bitchat_meshtastic.Prelude.{List, [], ◌∷◌, ◌++◌, length, le32, is_empty, ◌%◌, ◌^◌}
use bitchat_meshtastic.Proto.Varint.{encode_varint}

-- `(field_num << 3) | wire_type`, where the wire type has three bits
unfoldable pub encode_tag : ℕ → ℕ → List ℕ
encode_tag field_num wire_type = encode_varint (field_num * 8 % 2 ^ 32 + wire_type)

unfoldable pub encode_fixed32 : ℕ → ℕ → List ℕ
encode_fixed32 field_num value = encode_tag field_num 5 ++ le32 value

unfoldable pub encode_varint_field : ℕ → ℕ → List ℕ
encode_varint_field field_num value = encode_tag field_num 0 ++ encode_varint value

unfoldable pub encode_bytes_field : ℕ → List ℕ → List ℕ
encode_bytes_field field_num bytes =
    encode_tag field_num 2 ++ (encode_varint (length bytes) ++ bytes)

unfoldable pub encode_data : ℕ → List ℕ → List ℕ
encode_data portnum payload = encode_varint_field 1 portnum ++ encode_bytes_field 2 payload

-- The tag, the length and the copy of `data_buf` are written out in the source as in
-- `encode_bytes_field`.
unfoldable pub encode_mesh_packet : ℕ → ℕ → ℕ → ℕ → ℕ → List ℕ → List ℕ
encode_mesh_packet from to id channel hop_limit data_buf =
    (if from == 0 then [] else encode_fixed32 1 from)
    ++ (encode_fixed32 2 to
        ++ ((if channel == 0 then [] else encode_varint_field 3 channel)
            ++ ((encode_tag 4 2 ++ (encode_varint (length data_buf) ++ data_buf))
                ++ (encode_fixed32 6 id ++ encode_varint_field 9 hop_limit))))

-- A string field is written unless the pointer is null (`none`) or the string is empty.
encode_string_field : ℕ → Option (List ℕ) → List ℕ
encode_string_field field_num none = []
encode_string_field field_num (some s) = if is_empty s then [] else encode_bytes_field field_num s

unfoldable pub encode_user : Option (List ℕ) → Option (List ℕ) → Option (List ℕ) → ℕ → ℕ → List ℕ
unfolding encode_string_field
encode_user id long_name short_name hw_model role =
    encode_string_field 1 id
    ++ (encode_string_field 2 long_name
        ++ (encode_string_field 3 short_name
            ++ (encode_varint_field 5 hw_model ++ encode_varint_field 7 role)))

unfoldable pub encode_to_radio_packet : List ℕ → List ℕ
encode_to_radio_packet mesh_packet =
    encode_tag 1 2 ++ (encode_varint (length mesh_packet) ++ mesh_packet)

unfoldable pub encode_to_radio_want_config : ℕ → List ℕ
encode_to_radio_want_config config_id = encode_varint_field 3 config_id

unfoldable pub encode_to_radio_heartbeat : List ℕ
encode_to_radio_heartbeat = encode_tag 7 2 ++ (0 ∷ [])
