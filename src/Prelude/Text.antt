-- ===== src/Prelude/Text.antt =====
-- C strings. A `char` array that the code only reads as a string is the list of its bytes before
-- the first NUL.
use Prim.Native.Nat.{ℕ, ◌≤◌}
use mathlib.Core.Path.{◌≡◌, refl}
use mathlib.Core.Logic.{◌≢◌}
use mathlib.Core.Bool.{Bool, true, false}
use mathlib.Core.List.{List, [], ◌∷◌}
use native.Mathlib.Omega.{arith}
use Prim.Native.Char.{code}
use Prim.Native.String.{String}
use bitchat_meshtastic.Prelude.Tests.{◌==◌, if◌then◌else◌}
use bitchat_meshtastic.Prelude.Lists.{length, All}

-- The bytes of an ASCII literal.
abbrev pub codes : String → List ℕ
codes String.[] = []
codes (String.◌∷◌ c s) = code c ∷ codes s

-- The string that stands in a buffer: the bytes before the first NUL.
abbrev pub c_str : List ℕ → List ℕ
c_str [] = []
c_str (b ∷ bs) = if b == 0 then [] else b ∷ c_str bs

-- No NUL inside: what a pointer to a C string shows.
abbrev pub IsText : List ℕ → Type 0
IsText s = All (λ b. b ≢ 0) s

pub c_str-IsText : (bs : List ℕ) → IsText (c_str bs)
c_str-IsText [] = tt
c_str-IsText (b ∷ bs) = ground (arith, c_str-IsText bs)

pub c_str_of-IsText : (s : List ℕ) → IsText s → c_str s ≡ s
c_str_of-IsText [] h = refl
c_str_of-IsText (b ∷ s) h = ground (arith, c_str_of-IsText s h.1)

pub length-c_str-le : (s : List ℕ) → length (c_str s) ≤ length s
length-c_str-le [] = omega arith
length-c_str-le (b ∷ s) = ground (arith, length-c_str-le s)

-- Whether the string is empty: `s[0] == 0`.
abbrev pub is_empty : List ℕ → Bool
is_empty [] = true
is_empty (b ∷ s) = false
