-- ===== src/Proto/Varint/Bounds.antt =====
-- Sizes: what the varint encoder writes, and what the decoder takes from any input.
use bitchat_meshtastic.Prelude.{ℕ, zero, suc, ◌+◌, ◌*◌, ◌/◌, ◌%◌, ◌^◌, ◌≤◌, ◌<◌, ◌≡◌, arith}
use bitchat_meshtastic.Prelude.{some, List, [], ◌∷◌, length, All, IsByte}
use bitchat_meshtastic.Proto.Varint.{encode_varint_loop, encode_varint}
use bitchat_meshtastic.Proto.Varint.{decode_varint_loop, decode_varint}

encode_varint_loop-IsByte : (f v : ℕ) → All IsByte (encode_varint_loop f v)
unfolding encode_varint_loop
encode_varint_loop-IsByte zero v = tt
encode_varint_loop-IsByte (suc f) v = ground (arith, encode_varint_loop-IsByte f (v / 128))

pub encode_varint-IsByte : (v : ℕ) → All IsByte (encode_varint v)
unfolding encode_varint
encode_varint-IsByte v = encode_varint_loop-IsByte 5 v

length-encode_varint_loop :
    (f v : ℕ)
    → (1 ≤ length (encode_varint_loop (suc f) v)) × (length (encode_varint_loop (suc f) v) ≤ suc f)
unfolding encode_varint_loop
length-encode_varint_loop zero v = ground arith
length-encode_varint_loop (suc f) v = ground (arith, length-encode_varint_loop f (v / 128))

pub length-encode_varint : (v : ℕ) → (1 ≤ length (encode_varint v)) × (length (encode_varint v) ≤ 5)
unfolding encode_varint
length-encode_varint v = length-encode_varint_loop 4 v

-- Below 2 ^ 7 one byte is written, below 2 ^ 14 at most two.
pub length-encode_varint_one : (v : ℕ) → v < 128 → length (encode_varint v) ≡ 1
unfolding encode_varint encode_varint_loop
length-encode_varint_one v h = ground arith

pub length-encode_varint_two : (v : ℕ) → v < 16384 → length (encode_varint v) ≤ 2
unfolding encode_varint encode_varint_loop
length-encode_varint_two v h = ground arith

decode_varint_loop_bounds :
    (r : ℕ) (buf : List ℕ) (value shift i n v : ℕ)
    → decode_varint_loop r buf value shift i ≡ some (n, v)
    → (i + 1 ≤ n) × (n ≤ i + r) × (n ≤ i + length buf)
unfolding decode_varint_loop
decode_varint_loop_bounds zero buf value shift i n v e = cc
decode_varint_loop_bounds (suc r) [] value shift i n v e = cc
decode_varint_loop_bounds (suc r) (b ∷ buf) value shift i n v e = ground (
  arith,
  decode_varint_loop_bounds r buf (value + b % 128 * 2 ^ shift % 2 ^ 32) (shift + 7) (i + 1) n v,
)

-- A varint that is read took one to five bytes, and no more than there are.
pub decode_varint_bounds :
    (buf : List ℕ) (n v : ℕ)
    → decode_varint buf ≡ some (n, v)
    → (1 ≤ n) × (n ≤ 5) × (n ≤ length buf)
unfolding decode_varint
decode_varint_bounds buf n v e = ground (arith, decode_varint_loop_bounds 5 buf 0 0 0 n v e)
