-- ===== src/Prelude/Words.antt =====
-- Unsigned machine words as native numbers. `x & (2 ^ k - 1)` is `x % 2 ^ k`, `x >> k` is
-- `x / 2 ^ k`, and `|` of words that share no set bit is their sum.
use Prim.Native.Nat.{ℕ, ◌+◌, ◌-◌, ◌*◌, ◌/◌, ◌%◌, ◌^◌, ◌<◌}
use mathlib.Core.Path.{◌≡◌}
use mathlib.Core.List.{List, [], ◌∷◌}
use native.Mathlib.Omega.{arith}

abbrev pub IsByte : ℕ → Type 0
IsByte b = b < 256

abbrev pub IsU32 : ℕ → Type 0
IsU32 v = v < 2 ^ 32

-- uint32_t a + b and a - b
abbrev pub add32 : ℕ → ℕ → ℕ
add32 a b = (a + b) % 2 ^ 32

abbrev pub sub32 : ℕ → ℕ → ℕ
sub32 a b = (a + 2 ^ 32 - b) % 2 ^ 32

-- The bytes of a uint32_t in memory (the ESP32 is little-endian), and a memcpy back.
abbrev pub le32 : ℕ → List ℕ
le32 v = v % 256 ∷ v / 256 % 256 ∷ v / 65536 % 256 ∷ v / 16777216 % 256 ∷ []

abbrev pub from_le32 : ℕ → ℕ → ℕ → ℕ → ℕ
from_le32 a b c d = a + b * 256 + c * 65536 + d * 16777216

pub from_le32-le32 :
    (v : ℕ)
    → IsU32 v
    → from_le32 (v % 256) (v / 256 % 256) (v / 65536 % 256) (v / 16777216 % 256) ≡ v
from_le32-le32 v h = omega arith
