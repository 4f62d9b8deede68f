-- ===== src/Proto/Field.antt =====
-- `ProtoField` and `decode_field` of src/meshtastic/mesh_proto.h.
pub mod RoundTrip
pub mod Progress
use bitchat_meshtastic.Prelude.{
  ℕ, zero, suc, ◌+◌, ◌/◌, ◌%◌, ◌^◌, ltb, leb, if◌then◌else◌, ◌||◌, Bool,
}
use bitchat_meshtastic.Prelude.{Option, none, some, List, [], ◌∷◌, length, take, drop, from_le32}
use bitchat_meshtastic.Proto.Varint.{decode_varint}

-- A pointer with an `int` length. The length of a length-delimited field comes from the wire by
-- a cast, and may be negative: the loops over such a slice make no round, a `memcpy` of that many
-- bytes is out of bounds.
pub data Slice : Type 0 where
  slice : List ℕ → Slice
  negative : Slice

-- The union of `ProtoField`, by the wire type that says which member is set; a fixed64 sets none.
pub data Value : Type 0 where
  varint : ℕ → Value
  bytes : Slice → Value
  fixed32 : ℕ → Value
  fixed64 : Value

pub record ProtoField : Type 0 where
  pub field_num : ℕ
  pub val : Value

infixl 5 ◌>>=◌
abbrev ◌>>=◌ {ℓ κ} : {A : Type ℓ} {B : Type κ} → Option A → (A → Option B) → Option B
none >>= f = none
some a >>= f = f a

-- An `int` as its 32 bits.
abbrev pub is_negative : ℕ → Bool
is_negative n = leb (2 ^ 31) n

abbrev pub to_slice : List ℕ → ℕ → Slice
to_slice buf len = if is_negative len then negative else slice (take len buf)

-- `case 0`, `case 2`, `case 5` and `case 1`, on what stands behind the tag of `pos` bytes.
-- The sum `pos + n + (int)len` wraps as the hardware's; a negative one passes the test against
-- `buf_len`, and every caller takes it for an error as it does -1. `none` is a negative return.
decode_varint_value : ℕ → List ℕ → Option (ℕ × Value)
decode_varint_value pos buf = do (n, v) ← decode_varint buf; some (pos + n, varint v)

decode_bytes_value : ℕ → List ℕ → Option (ℕ × Value)
decode_bytes_value pos buf = do
  (n, len) ← decode_varint buf
  let end = (pos + n + len) % 2 ^ 32
  if is_negative end || ltb (pos + length buf) end
      then none
      else some (end, bytes (to_slice (drop n buf) len))

decode_fixed32_value : ℕ → List ℕ → Option (ℕ × Value)
decode_fixed32_value pos (a ∷ b ∷ c ∷ d ∷ buf) = some (pos + 4, fixed32 (from_le32 a b c d))
decode_fixed32_value pos _ = none

decode_fixed64_value : ℕ → List ℕ → Option (ℕ × Value)
decode_fixed64_value pos buf = if ltb (length buf) 8 then none else some (pos + 8, fixed64)

decode_value : ℕ → ℕ → List ℕ → Option (ℕ × Value)
unfolding decode_varint_value decode_bytes_value decode_fixed32_value decode_fixed64_value
decode_value zero pos buf = decode_varint_value pos buf
decode_value (suc zero) pos buf = decode_fixed64_value pos buf
decode_value (suc (suc zero)) pos buf = decode_bytes_value pos buf
decode_value (suc (suc (suc (suc (suc zero))))) pos buf = decode_fixed32_value pos buf
decode_value _ pos buf = none

-- `some (n, field)` is the return value `n` with what `*field` holds.
unfoldable pub decode_field : List ℕ → Option (ℕ × ProtoField)
unfolding decode_value decode_varint
decode_field [] = none
decode_field (b ∷ bs) = do
  (pos, tag) ← decode_varint (b ∷ bs)
  (n, v) ← decode_value (tag % 8) pos (drop pos (b ∷ bs))
  some (n, record { field_num = tag / 8; val = v })
