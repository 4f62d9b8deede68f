-- ===== src/Proto/Tests.antt =====
-- Concrete runs of the codec, and its theorems at concrete inputs.
use bitchat_meshtastic.Prelude.{zero, suc, ◌≡◌, ◌≢◌, refl, arith, [], ◌∷◌}
use bitchat_meshtastic.Prelude.{none, some, codes, true, decimal}
use bitchat_meshtastic.Proto.Varint.{encode_varint, decode_varint}
use bitchat_meshtastic.Proto.Field.{varint, decode_field, slice}
use bitchat_meshtastic.Proto.Field.Progress.{minus_six}
use bitchat_meshtastic.Proto.Encode.{
  encode_bytes_field, encode_data, encode_mesh_packet, encode_user,
}
use bitchat_meshtastic.Proto.Loop.{done, hang, each_field_of}
use bitchat_meshtastic.Proto.Loop.Ends.{NoNegative}
use bitchat_meshtastic.Proto.Report.{FloatPrinter, format_telemetry}
use bitchat_meshtastic.Proto.Parse.{
  text_kind, parse_from_radio, parse_node_info, is_config_complete,
}
use bitchat_meshtastic.Proto.Parse.Message.{parse_from_radio-encode_mesh_packet}
use bitchat_meshtastic.Proto.Parse.Names.{node_info_message, parse_node_info-encode_user}
use bitchat_meshtastic.Proto.Parse.Endless.{parsers_hang, is_config_complete-ends}

-- The float conversions play no part in the theorems.
abbrev plain : FloatPrinter
plain = record { degrees = λ v. decimal v; one_place = λ v. decimal v; no_place = λ v. decimal v }

encode_varint_300 : encode_varint 300 ≡ 0xac ∷ 0x02 ∷ []
unfolding encode_varint
encode_varint_300 = refl

-- Five bytes are enough for the largest uint32_t, and bits beyond the 32nd are dropped.
decode_varint_wide : decode_varint (0xff ∷ 0xff ∷ 0xff ∷ 0xff ∷ 0x7f ∷ []) ≡ some (5, 0xffffffff)
unfolding decode_varint
decode_varint_wide = refl

-- A number of more than five bytes is refused.
decode_varint_long : decode_varint (0x80 ∷ 0x80 ∷ 0x80 ∷ 0x80 ∷ 0x80 ∷ 0x00 ∷ []) ≡ none
unfolding decode_varint
decode_varint_long = refl

decode_field_cut : decode_field (0x12 ∷ 0x05 ∷ 1 ∷ 2 ∷ []) ≡ none
unfolding decode_field
decode_field_cut = refl

decode_field_8 : decode_field (8 ∷ 5 ∷ 9 ∷ []) ≡ some (2, record { field_num = 1; val = varint 5 })
unfolding decode_field
decode_field_8 = refl

parse_from_radio-encode_mesh_packet_example :
    parse_from_radio plain
      (encode_bytes_field 2 (encode_mesh_packet 5 0xFFFFFFFF 77 2 3 (encode_data 1 (codes "hi"))))
    ≡ done (record {
      valid = true;
      kind = text_kind;
      from_node = 5;
      to_node = 0xFFFFFFFF;
      packet_id = 77;
      channel = 2;
      rx_time = 0;
      text = codes "hi";
    })
parse_from_radio-encode_mesh_packet_example =
    parse_from_radio-encode_mesh_packet plain 5 0xFFFFFFFF 77 2 3 b'h' (codes "i") (omega arith)
      (omega arith) (omega arith) (omega arith) (omega arith) (omega arith)

parse_node_info-encode_user_example :
    parse_node_info (
      node_info_message 9
        (encode_user (some (codes "!0009")) (some (codes "BitBridge")) (some (codes "BBR")) 255 0))
    ≡ done (record {
      valid = true;
      node_num = 9;
      long_name = codes "!0009";
      short_name = codes "BitB";
    })
parse_node_info-encode_user_example =
    parse_node_info-encode_user 9 b'!' b'B' b'B' 255 0 (codes "0009") (codes "itBridge")
      (codes "BR") (omega arith) (omega arith) (omega arith) (omega arith) (omega arith)
      (omega arith) (omega arith) (omega arith)

parsers_hang_example :
    (parse_from_radio plain (minus_six 2 []) ≡ hang)
    × (parse_node_info (minus_six 2 []) ≡ hang)
    × (is_config_complete (minus_six 2 []) 7 ≡ hang)
parsers_hang_example = parsers_hang plain 2 7 [] (omega arith)

-- One varint field has no negative length at any place.
config_message : NoNegative (56 ∷ 7 ∷ [])
unfolding decode_field
config_message zero n f e = ground arith
config_message (suc zero) n f e = ground arith
config_message (suc (suc zero)) n f e = ground arith
config_message (suc (suc (suc k))) n f e = ground arith

is_config_complete-ends_example : is_config_complete (56 ∷ 7 ∷ []) 7 ≢ hang
is_config_complete-ends_example =
    is_config_complete-ends (56 ∷ 7 ∷ []) 7 (omega arith) config_message

is_config_complete_run : is_config_complete (56 ∷ 7 ∷ []) 7 ≡ done true
unfolding is_config_complete decode_field
is_config_complete_run = refl

format_telemetry_run :
    format_telemetry plain (slice (0x12 ∷ 0x02 ∷ 0x08 ∷ 0x57 ∷ []))
    ≡ done (some (0xF0 ∷ 0x9F ∷ 0x94 ∷ 0x8B ∷ codes " 87%"))
unfolding format_telemetry decode_field decimal each_field_of
format_telemetry_run = refl
