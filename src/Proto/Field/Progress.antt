-- ===== src/Proto/Field/Progress.antt =====
-- How many bytes `decode_field` uses up.
use bitchat_meshtastic.Prelude.{ℕ, zero, suc, ◌+◌, ◌*◌, ◌/◌, ◌%◌, ◌^◌, ◌≤◌, ◌<◌, ◌≡◌, arith}
use bitchat_meshtastic.Prelude.{some, List, [], ◌∷◌, length, drop, ◌⊎◌, inl, inr}
use bitchat_meshtastic.Prelude.{length-drop, Option-cases}
use bitchat_meshtastic.Proto.Varint.{decode_varint, decode_varint_loop}
use bitchat_meshtastic.Proto.Varint.Bounds.{decode_varint_bounds}
use bitchat_meshtastic.Proto.Field.{
  negative, Value, bytes, ProtoField, decode_field, decode_value, decode_varint_value,
  decode_bytes_value, decode_fixed32_value, decode_fixed64_value,
}

-- Whether a field uses up a byte: all do but those of negative length.
abbrev pub Moves : ℕ → Value → Type 0
Moves n v = (0 < n) ⊎ (v ≡ bytes negative)

module _ (pos : ℕ) (buf : List ℕ) (n : ℕ) (v : Value) (some_byte : 0 < pos) where
  varint-Moves : decode_varint_value pos buf ≡ some (n, v) → Moves n v × (n ≤ pos + length buf)
  unfolding decode_varint_value
  varint-Moves e = elim (Option-cases (decode_varint buf)) [
    | inl no_varint ↦ ground (arith, no_varint)
    | inr ((m, w), e') ↦ ground (arith, e', decode_varint_bounds buf m w e')
  ]

  bytes-Moves :
      length buf < 2 ^ 30
      → pos ≤ 5
      → decode_bytes_value pos buf ≡ some (n, v)
      → Moves n v × (n ≤ pos + length buf)
  unfolding decode_bytes_value
  bytes-Moves hl hp e = elim (Option-cases (decode_varint buf)) [
    | inl no_varint ↦ ground (arith, no_varint)
    | inr ((m, w), e') ↦ ground (arith, e', decode_varint_bounds buf m w e')
  ]

  fixed64-Moves : decode_fixed64_value pos buf ≡ some (n, v) → Moves n v × (n ≤ pos + length buf)
  unfolding decode_fixed64_value
  fixed64-Moves e = ground arith

fixed32-Moves :
    (pos : ℕ) (buf : List ℕ) (n : ℕ) (v : Value)
    → 0 < pos
    → decode_fixed32_value pos buf ≡ some (n, v)
    → Moves n v × (n ≤ pos + length buf)
unfolding decode_fixed32_value
fixed32-Moves pos (a ∷ b ∷ c ∷ d ∷ buf) n v h e = ground arith
fixed32-Moves pos _ n v h e = ground arith

value-Moves :
    (wire pos : ℕ) (buf : List ℕ) (n : ℕ) (v : Value)
    → 0 < pos
    → pos ≤ 5
    → length buf < 2 ^ 30
    → decode_value wire pos buf ≡ some (n, v)
    → Moves n v × (n ≤ pos + length buf)
unfolding decode_value
value-Moves zero pos buf n v h0 h5 hl e = varint-Moves pos buf n v h0 e
value-Moves (suc zero) pos buf n v h0 h5 hl e = fixed64-Moves pos buf n v h0 e
value-Moves (suc (suc zero)) pos buf n v h0 h5 hl e = bytes-Moves pos buf n v h0 hl h5 e
value-Moves (suc (suc (suc (suc (suc zero))))) pos buf n v h0 h5 hl e =
    fixed32-Moves pos buf n v h0 e
value-Moves _ pos buf n v h0 h5 hl e = cc

-- In a buffer of fewer than 2^30 bytes, a field that is read stays inside the buffer, and uses up a
-- byte unless its length is negative.
pub decode_field-Moves :
    (buf : List ℕ) (n : ℕ) (f : ProtoField)
    → length buf < 2 ^ 30
    → decode_field buf ≡ some (n, f)
    → Moves n f.val × (n ≤ length buf)
unfolding decode_field
decode_field-Moves [] n f hl e = cc
decode_field-Moves (b ∷ bs) n f hl e = elim (Option-cases (decode_varint (b ∷ bs))) [
  | inl no_tag ↦ ground (arith, no_tag)
  | inr ((pos, tag), e') ↦ elim (Option-cases (decode_value (tag % 8) pos (drop pos (b ∷ bs)))) [
    | inl no_value ↦ ground (arith, e', no_value)
    | inr ((m, v), e'') ↦ ground (
      arith,
      e',
      e'',
      decode_varint_bounds (b ∷ bs) pos tag e',
      length-drop pos (b ∷ bs),
      value-Moves (tag % 8) pos (drop pos (b ∷ bs)) m v,
    )
  ]
]

-- A tag byte and the length -6, in the five bytes that the decoder reads.
abbrev pub minus_six : ℕ → List ℕ → List ℕ
minus_six num rest = (num * 8 + 2) ∷ 0xFA ∷ 0xFF ∷ 0xFF ∷ 0xFF ∷ 0x0F ∷ rest

-- The six bytes of the field and its length cancel: nothing is used up.
pub decode_field-minus_six :
    (num : ℕ) (rest : List ℕ)
    → num < 16
    → decode_field (minus_six num rest) ≡ some (0, record { field_num = num; val = bytes negative })
unfolding decode_field decode_bytes_value decode_varint_loop
decode_field-minus_six num rest h =
    let w : (num * 8 + 2) % 8 ≡ 2 = omega arith in
    let n : (num * 8 + 2) / 8 ≡ num = omega arith in ground (arith, w, n)
