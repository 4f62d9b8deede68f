-- ===== src/Proto/Varint.antt =====
-- Varint helpers of src/meshtastic/mesh_proto.h.
pub mod RoundTrip
pub mod Bounds
use bitchat_meshtastic.Prelude.{ℕ, zero, suc, ◌+◌, ◌*◌, ◌/◌, ◌%◌, ◌^◌, ltb, if◌then◌else◌}
use bitchat_meshtastic.Prelude.{Option, none, some, List, [], ◌∷◌}

-- `while (value > 0x7F) { … }`, on fuel: a uint32_t has at most five groups of seven bits, and
-- the list is what is written from `buf` on.
unfoldable pub encode_varint_loop : ℕ → ℕ → List ℕ
encode_varint_loop zero value = []
encode_varint_loop (suc fuel) value =
    let rest = encode_varint_loop fuel (value / 128) in
    if ltb 0x7F value then (value % 128 + 128) ∷ rest else value % 128 ∷ []

unfoldable pub encode_varint : ℕ → List ℕ
unfolding encode_varint_loop
encode_varint value = encode_varint_loop 5 value

-- `rounds` counts `i < 5`, the list ends at `i < len`. The bits that `|=` adds are above those
-- that `value` has, so it is a sum; the cast to uint32_t cuts the fifth group.
-- `some (n, value)` is the return value `n` with what `*value` holds; `none` is -1.
unfoldable pub decode_varint_loop : ℕ → List ℕ → ℕ → ℕ → ℕ → Option (ℕ × ℕ)
decode_varint_loop zero buf value shift i = none
decode_varint_loop (suc rounds) [] value shift i = none
decode_varint_loop (suc rounds) (b ∷ buf) value shift i =
    let value' = value + b % 128 * 2 ^ shift % 2 ^ 32 in
    let more = decode_varint_loop rounds buf value' (shift + 7) (i + 1) in
    if ltb 0x7F b then more else some (i + 1, value')

unfoldable pub decode_varint : List ℕ → Option (ℕ × ℕ)
unfolding decode_varint_loop
decode_varint buf = decode_varint_loop 5 buf 0 0 0
