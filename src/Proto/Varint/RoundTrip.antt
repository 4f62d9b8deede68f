-- ===== src/Proto/Varint/RoundTrip.antt =====
-- The varint decoder against the encoder.
use bitchat_meshtastic.Prelude.{ℕ, zero, suc, ◌+◌, ◌*◌, ◌/◌, ◌%◌, ◌^◌, ◌≤◌, ◌<◌, ◌≡◌, arith}
use bitchat_meshtastic.Prelude.{some, List, ◌++◌, length, IsU32}
use bitchat_meshtastic.Prelude.{ap}
use bitchat_meshtastic.Proto.Varint.{encode_varint_loop, encode_varint}
use bitchat_meshtastic.Proto.Varint.{decode_varint_loop, decode_varint}
use native.Mathlib.Nat.{div-add-mod}
use native.Mathlib.Numerals.{towards_suc}

shift_seven : (s : ℕ) → 2 ^ (s + 7) ≡ 128 * 2 ^ s
shift_seven s = simp towards_suc (omega arith)

split_group : (v s : ℕ) → v * 2 ^ s ≡ v % 128 * 2 ^ s + v / 128 * 2 ^ (s + 7)
split_group v s = omega (
  arith,
  ap (λ (t : ℕ). t * 2 ^ s) (div-add-mod v 128),
  ap (λ (t : ℕ). v / 128 * t) (shift_seven s),
)

decode_varint_loop-encode :
    (f r v value shift i : ℕ) (rest : List ℕ)
    → v < 128 ^ suc f
    → suc f ≤ r
    → IsU32 (value + v * 2 ^ shift)
    → decode_varint_loop r (encode_varint_loop (suc f) v ++ rest) value shift i
      ≡ some (i + length (encode_varint_loop (suc f) v), value + v * 2 ^ shift)
unfolding encode_varint_loop decode_varint_loop
decode_varint_loop-encode f zero v value shift i rest hv hr fits = absurd (omega arith)
decode_varint_loop-encode zero (suc r) v value shift i rest hv hr fits = ground arith
decode_varint_loop-encode (suc f) (suc r) v value shift i rest hv hr fits = ground (
  arith,
  split_group v shift,
  decode_varint_loop-encode f r (v / 128) (value + v % 128 * 2 ^ shift) (shift + 7) (i + 1) rest
      (omega arith) (omega arith) (omega (arith, split_group v shift)),
)

-- The decoder reads back every uint32_t that the encoder wrote, whatever follows it, and reports
-- the bytes that the encoder wrote as used up.
pub decode_varint-encode_varint :
    (v : ℕ) (rest : List ℕ)
    → IsU32 v
    → decode_varint (encode_varint v ++ rest) ≡ some (length (encode_varint v), v)
unfolding decode_varint encode_varint
decode_varint-encode_varint v rest h =
    ground
      (arith, decode_varint_loop-encode 4 5 v 0 0 0 rest (omega arith) (omega arith) (omega arith))
