-- ===== src/Ble/Tlv.antt =====
-- `_tlv_encode` and `_tlv_find` of src/bitchat/bitchat_ble.cpp.
use bitchat_meshtastic.Prelude.{
  ℕ, zero, suc, ◌+◌, ◌%◌, ◌≤◌, ◌≡◌, refl, arith, ltb, ◌==◌, if◌then◌else◌, false, Option, none,
  some, List, [], ◌∷◌, ◌++◌, length, take, drop, length-take, take_all, take-append, drop-append,
  length-append, All, append-nil, ==-refl, ◌∙◌,
}

-- The length is a uint8_t.
unfoldable pub tlv_encode : ℕ → List ℕ → List ℕ
tlv_encode type value = let len = length value % 256 in type ∷ len ∷ take len value

pub length-tlv_encode :
    (type : ℕ) (value : List ℕ)
    → length value ≤ 255
    → length (tlv_encode type value) ≡ 2 + length value
unfolding tlv_encode
length-tlv_encode type value h = omega (arith, length-take (length value % 256) value)

pub length-tlv_encode_le :
    (type : ℕ) (value : List ℕ) → length (tlv_encode type value) ≤ 2 + length value
unfolding tlv_encode
length-tlv_encode_le type value = omega (arith, length-take _ value)

-- The buffer from `pos` on; each round takes two bytes or more.
unfoldable pub tlv_loop : ℕ → ℕ → List ℕ → Option (List ℕ)
tlv_loop fuel type [] = none
tlv_loop fuel type (t ∷ []) = none
tlv_loop zero type (t ∷ l ∷ rest) = none
tlv_loop (suc fuel) type (t ∷ l ∷ rest) =
    let next = tlv_loop fuel type (drop l rest) in
    if ltb (length rest) l then none else if t == type then some (take l rest) else next

-- The value of the first TLV of the type, if there is one.
unfoldable pub tlv_find : List ℕ → ℕ → Option (List ℕ)
unfolding tlv_loop
tlv_find buf type = tlv_loop (length buf) type buf

-- TLVs one after the other
abbrev pub write_tlvs : List (ℕ × List ℕ) → List ℕ
write_tlvs [] = []
write_tlvs ((type, value) ∷ tlvs) = tlv_encode type value ++ write_tlvs tlvs

abbrev pub first_value : ℕ → List (ℕ × List ℕ) → Option (List ℕ)
first_value type [] = none
first_value type ((t, value) ∷ tlvs) = if t == type then some value else first_value type tlvs

tlv_loop-write_tlvs :
    (fuel type : ℕ) (tlvs : List (ℕ × List ℕ))
    → All (λ tlv. length tlv.1 ≤ 255) tlvs
    → length (write_tlvs tlvs) ≤ fuel
    → tlv_loop fuel type (write_tlvs tlvs) ≡ first_value type tlvs
unfolding tlv_loop tlv_encode
tlv_loop-write_tlvs zero type [] h hf = refl
tlv_loop-write_tlvs (suc fuel) type [] h hf = refl
tlv_loop-write_tlvs zero type ((t, value) ∷ tlvs) (hv, h) hf = absurd (omega arith)
tlv_loop-write_tlvs (suc fuel) type ((t, value) ∷ tlvs) (hv, h) hf =
    let e : length value % 256 ≡ length value = omega arith in
    let size : length (take (length value % 256) value ++ write_tlvs tlvs)
        ≡ length value + length (write_tlvs tlvs) =
      rw (e, take_all (length value) value (omega arith)) (length-append value (write_tlvs tlvs)) in
    let fits : ltb (length (value ++ write_tlvs tlvs)) (length value) ≡ false =
      ground (arith, length-append value (write_tlvs tlvs)) in
    rw
      (
        e,
        take_all (length value) value (omega arith),
        fits,
        take-append value (write_tlvs tlvs) (length value) refl,
        drop-append value (write_tlvs tlvs) (length value) refl,
      )
      (rw (tlv_loop-write_tlvs fuel type tlvs h (omega (arith, size))) refl)

-- What `_tlv_encode` wrote, in values of at most 255 bytes, `_tlv_find` finds: the first value of
-- the type that is asked for, or none.
pub tlv_find-write_tlvs :
    (type : ℕ) (tlvs : List (ℕ × List ℕ))
    → All (λ tlv. length tlv.1 ≤ 255) tlvs
    → tlv_find (write_tlvs tlvs) type ≡ first_value type tlvs
unfolding tlv_find
tlv_find-write_tlvs type tlvs h =
    tlv_loop-write_tlvs (length (write_tlvs tlvs)) type tlvs h (omega arith)

-- A buffer that has its TLV alone.
pub tlv_find-only :
    (type : ℕ) (value : List ℕ)
    → length value ≤ 255
    → tlv_find (tlv_encode type value) type ≡ some value
tlv_find-only type value h =
    rw (← append-nil (tlv_encode type value))
      (tlv_find-write_tlvs type ((type, value) ∷ []) (h, tt) ∙ rw (==-refl type) refl)
