-- ===== src/Proto/Loop.antt =====
-- The loop `while (pos < len) { consumed = decode_field(…); if (consumed < 0) break; … }` that every
-- parser of src/meshtastic/mesh_proto.h has.
pub mod Fold
pub mod Ends
use bitchat_meshtastic.Prelude.{ℕ, zero, suc, List, [], ◌∷◌, length, drop, none, some}
use bitchat_meshtastic.Proto.Field.{Slice, slice, negative, ProtoField, decode_field}

-- How a parser ends: it returns, it goes round for ever, or it copies a negative number of bytes.
pub data Outcome {ℓ} (A : Type ℓ) : Type ℓ where
  done : A → Outcome A
  hang : Outcome A
  fault : Outcome A

infixl 5 ◌>>=◌
abbrev pub ◌>>=◌ {ℓ κ} : {A : Type ℓ} {B : Type κ} → Outcome A → (A → Outcome B) → Outcome B
done a >>= f = f a
hang >>= f = hang
fault >>= f = fault

module _ {S : Type 0} (step : S → ProtoField → Outcome S) where
  -- The list is what stands from `buf + pos` on. A round that uses up a byte shortens it, so fuel
  -- for its length is enough unless a round uses up none.
  unfoldable pub each_field : ℕ → List ℕ → S → Outcome S
  each_field fuel [] s = done s
  each_field zero (b ∷ bs) s = hang
  each_field (suc fuel) (b ∷ bs) s = elim (decode_field (b ∷ bs)) [
    | none ↦ done s
    | some (consumed, f) ↦ step s f >>= λ s'. each_field fuel (drop consumed (b ∷ bs)) s'
  ]

  unfoldable pub each_field_of : Slice → S → Outcome S
  unfolding each_field
  each_field_of (slice bs) s = each_field (length bs) bs s
  each_field_of negative s = done s
