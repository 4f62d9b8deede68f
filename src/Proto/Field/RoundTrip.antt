-- ===== src/Proto/Field/RoundTrip.antt =====
-- `decode_field` on what the field encoders write, whatever follows.
use bitchat_meshtastic.Prelude.{ℕ, ◌+◌, ◌*◌, ◌/◌, ◌%◌, ◌^◌, ◌≤◌, ◌<◌, ◌≡◌, ◌∙◌, refl, arith}
use bitchat_meshtastic.Prelude.{Option, some, List, [], ◌∷◌, ◌++◌, length, drop, IsU32}
use bitchat_meshtastic.Prelude.{length-append, take-append, drop-append, append_assoc, le32}
use bitchat_meshtastic.Prelude.{from_le32-le32}
use bitchat_meshtastic.Proto.Varint.{encode_varint, decode_varint}
use bitchat_meshtastic.Proto.Varint.RoundTrip.{decode_varint-encode_varint}
use bitchat_meshtastic.Proto.Varint.Bounds.{length-encode_varint}
use bitchat_meshtastic.Proto.Encode.{
  encode_tag, encode_fixed32, encode_varint_field, encode_bytes_field,
}
use bitchat_meshtastic.Proto.Field.{
  slice, Value, varint, bytes, fixed32, ProtoField, ◌>>=◌, decode_field, decode_value,
  decode_bytes_value,
}

abbrev with_num : ℕ → ℕ × Value → Option (ℕ × ProtoField)
with_num num (n, v) = some (n, record { field_num = num; val = v })

decode_field_of :
    (buf : List ℕ) (pos tag : ℕ)
    → decode_varint buf ≡ some (pos, tag)
    → decode_field buf ≡ (decode_value (tag % 8) pos (drop pos buf) >>= with_num (tag / 8))
unfolding decode_field
decode_field_of [] pos tag e = cc
decode_field_of (b ∷ bs) pos tag e = rw (e, ◌>>=◌)

decode_field-tag :
    (num wire : ℕ) (rest : List ℕ)
    → num < 2 ^ 29
    → wire < 8
    → decode_field (encode_tag num wire ++ rest)
      ≡ (decode_value wire (length (encode_tag num wire)) rest >>= with_num num)
unfolding encode_tag
decode_field-tag num wire rest hn hw =
    let tag : ℕ = num * 8 % 2 ^ 32 + wire in
    let w : tag % 8 ≡ wire = omega arith in
    let n : tag / 8 ≡ num = omega arith in
    decode_field_of _ _ tag (decode_varint-encode_varint tag rest (omega arith))
    ∙ rw (drop-append (encode_varint tag) rest _ refl, w, n)

pub length-encode_tag :
    (num wire : ℕ) → (1 ≤ length (encode_tag num wire)) × (length (encode_tag num wire) ≤ 5)
unfolding encode_tag
length-encode_tag num wire = length-encode_varint (num * 8 % 2 ^ 32 + wire)

pub decode_field-varint :
    (num v : ℕ) (rest : List ℕ)
    → num < 2 ^ 29
    → IsU32 v
    → decode_field (encode_varint_field num v ++ rest)
      ≡ some (length (encode_varint_field num v), record { field_num = num; val = varint v })
unfolding encode_varint_field decode_value
decode_field-varint num v rest hn hv = rw append_assoc (
    decode_field-tag num 0 (encode_varint v ++ rest) hn (omega arith)
    ∙ rw (decode_varint-encode_varint v rest hv, length-append))

pub decode_field-fixed32 :
    (num v : ℕ) (rest : List ℕ)
    → num < 2 ^ 29
    → IsU32 v
    → decode_field (encode_fixed32 num v ++ rest)
      ≡ some (length (encode_fixed32 num v), record { field_num = num; val = fixed32 v })
unfolding encode_fixed32 decode_value
decode_field-fixed32 num v rest hn hv = rw append_assoc (
    decode_field-tag num 5 (le32 v ++ rest) hn (omega arith)
    ∙ rw (length-append, from_le32-le32 v hv))

decode_bytes_value-encode :
    (pos : ℕ) (bs rest : List ℕ)
    → pos ≤ 5
    → length bs < 2 ^ 30
    → decode_bytes_value pos (encode_varint (length bs) ++ (bs ++ rest))
      ≡ some (pos + (length (encode_varint (length bs)) + length bs), bytes (slice bs))
unfolding decode_bytes_value
decode_bytes_value-encode pos bs rest hp hl =
    let head : List ℕ = encode_varint (length bs) in
    ground (
      arith,
      decode_varint-encode_varint (length bs) (bs ++ rest) (omega arith),
      length-encode_varint (length bs),
      drop-append head (bs ++ rest) (length head) refl,
      take-append bs rest (length bs) refl,
      length-append head (bs ++ rest),
      length-append bs rest,
    )

pub decode_field-bytes :
    (num : ℕ) (bs rest : List ℕ)
    → num < 2 ^ 29
    → length bs < 2 ^ 30
    → decode_field (encode_bytes_field num bs ++ rest)
      ≡ some
          (length (encode_bytes_field num bs), record { field_num = num; val = bytes (slice bs) })
unfolding encode_bytes_field decode_value
decode_field-bytes num bs rest hn hl =
    rw (append_assoc (encode_tag num 2), append_assoc (encode_varint (length bs)))
      (decode_field-tag num 2 (encode_varint (length bs) ++ (bs ++ rest)) hn (omega arith)
        ∙ rw (
          decode_bytes_value-encode (length (encode_tag num 2)) bs rest (length-encode_tag num 2).1
              hl,
          length-append,
          length-append (encode_varint (length bs)),
        ))
