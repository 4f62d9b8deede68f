-- ===== src/Proto/Parse/Message.antt =====
-- The parser of FromRadio on what the packet encoders write.
use bitchat_meshtastic.Prelude.{ℕ, ◌+◌, ◌^◌, ◌≤◌, ◌<◌, ◌≡◌, ◌∙◌, refl, arith}
use bitchat_meshtastic.Prelude.{none, some, List, [], ◌∷◌, ◌++◌, length, take, c_str, IsU32, All}
use bitchat_meshtastic.Prelude.{true, ◌==◌, if◌then◌else◌, inl, inr, Bool-cases}
use bitchat_meshtastic.Prelude.{append-nil, sym}
use bitchat_meshtastic.Proto.Field.{slice, Value, varint, bytes, fixed32, ProtoField}
use bitchat_meshtastic.Proto.Encode.{encode_bytes_field, encode_data, encode_mesh_packet}
use bitchat_meshtastic.Proto.Loop.{done}
use bitchat_meshtastic.Proto.Loop.Fold.{
  write_fields, IsWritable, each_field_of-write_fields, over_fields,
}
use bitchat_meshtastic.Proto.Encode.Sizes.{length-encode_data, length-encode_mesh_packet}
use bitchat_meshtastic.Proto.Report.{FloatPrinter}
use bitchat_meshtastic.Proto.Parse.{
  ParsedTextMessage, text_kind, no_message, find_bytes, packet_step, data_step, finish_data,
  parse_data, parse_packet, parse_from_radio,
}

abbrev field : ℕ → Value → ProtoField
field num v = record { field_num = num; val = v }

abbrev packet_fields : ℕ → ℕ → ℕ → ℕ → ℕ → List ℕ → List ProtoField
packet_fields from to id channel hop_limit data_buf =
    (if from == 0 then [] else (field 1 (fixed32 from) ∷ []))
    ++ (field 2 (fixed32 to)
        ∷ ((if channel == 0 then [] else (field 3 (varint channel) ∷ []))
            ++ (field 4 (bytes (slice data_buf))
                ∷ field 6 (fixed32 id)
                ∷ field 9 (varint hop_limit)
                ∷ [])))

module _ (from to id channel hop_limit : ℕ) (data_buf : List ℕ) where
  encode_mesh_packet-write_fields :
      encode_mesh_packet from to id channel hop_limit data_buf
      ≡ write_fields (packet_fields from to id channel hop_limit data_buf)
  unfolding encode_mesh_packet encode_bytes_field
  encode_mesh_packet-write_fields = elim (Bool-cases (from == 0)) [
    | inl e ↦ elim (Bool-cases (channel == 0)) [
      | inl e' ↦ rw (e, e', append-nil) refl
      | inr e' ↦ rw (e, e', append-nil) refl
    ]
    | inr e ↦ elim (Bool-cases (channel == 0)) [
      | inl e' ↦ rw (e, e', append-nil) refl
      | inr e' ↦ rw (e, e', append-nil) refl
    ]
  ]

  packet_fields-IsWritable :
      IsU32 from
      → IsU32 to
      → IsU32 id
      → channel < 256
      → hop_limit < 256
      → length data_buf < 2 ^ 30
      → All IsWritable (packet_fields from to id channel hop_limit data_buf)
  packet_fields-IsWritable hf ht hi hc hh hd = elim (Bool-cases (from == 0)) [
    | inl e ↦ elim (Bool-cases (channel == 0)) [
      | inl e' ↦ rw (e, e') (omega arith)
      | inr e' ↦ rw (e, e') (omega arith)
    ]
    | inr e ↦ elim (Bool-cases (channel == 0)) [
      | inl e' ↦ rw (e, e') (omega arith)
      | inr e' ↦ rw (e, e') (omega arith)
    ]
  ]

  abbrev pub header_read : ParsedTextMessage
  header_read = record no_message {
    from_node = from;
    to_node = to;
    packet_id = id;
    channel = channel;
  }

  over_fields-packet :
      channel < 256
      → over_fields packet_step
          (packet_fields from to id channel hop_limit data_buf)
          (record { result = no_message; decoded = none })
        ≡ done (record { result = header_read; decoded = some (slice data_buf) })
  unfolding packet_step
  over_fields-packet hc = ground arith

-- The header of a packet is read back, and its Data is parsed.
parse_packet-encode :
    (fmt : FloatPrinter) (from to id channel hop_limit : ℕ) (data_buf : List ℕ)
    → IsU32 from
    → IsU32 to
    → IsU32 id
    → channel < 256
    → hop_limit < 256
    → length data_buf < 2 ^ 30
    → parse_packet fmt (some (slice (encode_mesh_packet from to id channel hop_limit data_buf)))
      ≡ parse_data fmt (some (slice data_buf)) (header_read from to id channel hop_limit data_buf)
unfolding parse_packet
parse_packet-encode fmt from to id channel hop_limit data_buf hf ht hi hc hh hd = rw (
  each_field_of-write_fields packet_step (packet_fields from to id channel hop_limit data_buf)
      (encode_mesh_packet from to id channel hop_limit data_buf)
      (record { result = no_message; decoded = none })
      (encode_mesh_packet-write_fields from to id channel hop_limit data_buf)
      (packet_fields-IsWritable from to id channel hop_limit data_buf hf ht hi hc hh hd),
  over_fields-packet from to id channel hop_limit data_buf hc,
)

parse_data-encode :
    (fmt : FloatPrinter) (portnum : ℕ) (payload : List ℕ) (r : ParsedTextMessage)
    → IsU32 portnum
    → length payload < 2 ^ 30
    → parse_data fmt (some (slice (encode_data portnum payload))) r
      ≡ finish_data fmt portnum (some (slice payload)) r
unfolding parse_data
parse_data-encode fmt portnum payload r hp hl =
    let fs : List ProtoField = field 1 (varint portnum) ∷ field 2 (bytes (slice payload)) ∷ [] in
    rw
      (each_field_of-write_fields data_step fs (encode_data portnum payload)
        (record { portnum = 0; payload = none }) (unfold encode_data in rw append-nil refl)
        (omega arith))
      (unfold data_step in refl)

finish_data-text :
    (fmt : FloatPrinter) (b : ℕ) (text : List ℕ) (r : ParsedTextMessage)
    → finish_data fmt 1 (some (slice (b ∷ text))) r
      ≡ done (record r { valid = true; kind = text_kind; text = c_str (take 255 (b ∷ text)) })
unfolding finish_data
finish_data-text fmt b text r = refl

from_radio_packet :
    (fmt : FloatPrinter) (packet : List ℕ)
    → length packet < 2 ^ 30
    → parse_from_radio fmt (encode_bytes_field 2 packet) ≡ parse_packet fmt (some (slice packet))
unfolding parse_from_radio
from_radio_packet fmt packet hl =
    rw
      (each_field_of-write_fields (find_bytes 2) (field 2 (bytes (slice packet)) ∷ [])
        (encode_bytes_field 2 packet) none (sym (append-nil _)) (omega arith))
      (unfold find_bytes in refl)

-- A text packet as the encoders write it, with numbers that fit their types and a text of 1 to 2^28
-- bytes, framed as the radio's FromRadio packet, is parsed to a
-- text message with the same sender, destination, packet id and channel, and with the text: its
-- first 255 bytes, up to a NUL.
pub parse_from_radio-encode_mesh_packet :
    (fmt : FloatPrinter) (from to id channel hop_limit b : ℕ) (text : List ℕ)
    → IsU32 from
    → IsU32 to
    → IsU32 id
    → channel < 256
    → hop_limit < 256
    → length text < 2 ^ 28
    → parse_from_radio fmt (
        encode_bytes_field 2
          (encode_mesh_packet from to id channel hop_limit (encode_data 1 (b ∷ text))))
      ≡ done (record {
        valid = true;
        kind = text_kind;
        from_node = from;
        to_node = to;
        packet_id = id;
        channel = channel;
        rx_time = 0;
        text = c_str (take 255 (b ∷ text));
      })
parse_from_radio-encode_mesh_packet fmt from to id channel hop_limit b text hf ht hi hc hh hl =
    from_radio_packet fmt _ (omega (arith, packet_size, data_size))
    ∙ (parse_packet-encode fmt from to id channel hop_limit data_buf hf ht hi hc hh
          (omega (arith, data_size))
        ∙ (parse_data-encode fmt 1 (b ∷ text) _ (omega arith) (omega arith)
            ∙ finish_data-text fmt b text _))
  where
    data_buf : List ℕ
    data_buf = encode_data 1 (b ∷ text)

    data_size : length data_buf ≤ length text + 21
    data_size = omega (arith, length-encode_data 1 (b ∷ text))

    packet_size :
        length (encode_mesh_packet from to id channel hop_limit data_buf) ≤ length data_buf + 58
    packet_size = omega (arith, length-encode_mesh_packet from to id channel hop_limit data_buf)
