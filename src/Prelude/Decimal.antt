-- ===== src/Prelude/Decimal.antt =====
-- What `printf` writes for integers.
use Prim.Native.Nat.{ℕ, zero, suc, ◌+◌, ◌-◌, ◌/◌, ◌%◌, ◌^◌}
use mathlib.Core.List.{List, [], ◌∷◌, ◌++◌}
use bitchat_meshtastic.Prelude.Tests.{ltb, if◌then◌else◌}

-- `digits` counts the digits that are still to come; the accumulator holds those written.
decimal_loop : ℕ → ℕ → List ℕ → List ℕ
decimal_loop zero n acc = acc
decimal_loop (suc digits) n acc =
    let acc' = (b'0' + n % 10) ∷ acc in
    let more = decimal_loop digits (n / 10) acc' in if ltb n 10 then acc' else more

-- `%u` of a uint32_t, which has ten digits at most
unfoldable pub decimal : ℕ → List ℕ
unfolding decimal_loop
decimal n = decimal_loop 10 n []

-- `%d` of an int32_t, given as its 32 bits
unfoldable pub signed_decimal : ℕ → List ℕ
unfolding decimal
signed_decimal bits = if ltb bits (2 ^ 31) then decimal bits else b'-' ∷ decimal (2 ^ 32 - bits)

abbrev pub hex_digit : ℕ → ℕ
hex_digit d = if ltb d 10 then b'0' + d else b'a' + (d - 10)

-- `%02x` of a byte
abbrev pub hex_byte : ℕ → List ℕ
hex_byte b = hex_digit (b / 16) ∷ hex_digit (b % 16) ∷ []

-- `%08x` of a uint32_t
abbrev pub hex_word : ℕ → List ℕ
hex_word w =
    hex_byte (w / 2 ^ 24 % 256)
    ++ (hex_byte (w / 2 ^ 16 % 256) ++ (hex_byte (w / 2 ^ 8 % 256) ++ hex_byte (w % 256)))
