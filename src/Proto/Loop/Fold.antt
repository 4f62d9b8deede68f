-- ===== src/Proto/Loop/Fold.antt =====
-- The field loop on a buffer that holds the fields of a list, as the encoders write them.
use bitchat_meshtastic.Prelude.{ℕ, zero, suc, ◌^◌, ◌≤◌, ◌<◌, ◌≡◌, ◌∙◌, refl, arith}
use bitchat_meshtastic.Prelude.{some, List, [], ◌∷◌, ◌++◌, length, IsU32, All}
use bitchat_meshtastic.Prelude.{length-append, drop-append}
use bitchat_meshtastic.Proto.Field.{
  slice, negative, Value, varint, bytes, fixed32, fixed64, ProtoField, decode_field,
}
use bitchat_meshtastic.Proto.Field.RoundTrip.{
  length-encode_tag, decode_field-varint, decode_field-bytes, decode_field-fixed32,
}
use bitchat_meshtastic.Proto.Encode.{encode_fixed32, encode_varint_field, encode_bytes_field}
use bitchat_meshtastic.Proto.Loop.{Outcome, done, hang, fault, ◌>>=◌, each_field, each_field_of}
use bitchat_meshtastic.Proto.Loop.Ends.{each_field_read}

abbrev write_value : ℕ → Value → List ℕ
write_value num (varint v) = encode_varint_field num v
write_value num (bytes (slice bs)) = encode_bytes_field num bs
write_value num (bytes negative) = []
write_value num (fixed32 v) = encode_fixed32 num v
write_value num fixed64 = []

abbrev pub write_fields : List ProtoField → List ℕ
write_fields [] = []
write_fields (f ∷ fs) = write_value f.field_num f.val ++ write_fields fs

abbrev pub FitsWire : Value → Type 0
FitsWire (varint v) = IsU32 v
FitsWire (bytes (slice bs)) = length bs < 2 ^ 30
FitsWire (bytes negative) = ⊥
FitsWire (fixed32 v) = IsU32 v
FitsWire fixed64 = ⊥

-- What the encoders can write and the decoder can read back.
abbrev pub IsWritable : ProtoField → Type 0
IsWritable f = (f.field_num < 2 ^ 29) × FitsWire f.val

decode_field-write :
    (num : ℕ) (v : Value) (rest : List ℕ)
    → num < 2 ^ 29
    → FitsWire v
    → decode_field (write_value num v ++ rest)
      ≡ some (length (write_value num v), record { field_num = num; val = v })
decode_field-write num (varint v) rest hn hv = decode_field-varint num v rest hn hv
decode_field-write num (bytes (slice bs)) rest hn hv = decode_field-bytes num bs rest hn hv
decode_field-write num (bytes negative) rest hn hv = absurd hv
decode_field-write num (fixed32 v) rest hn hv = decode_field-fixed32 num v rest hn hv
decode_field-write num fixed64 rest hn hv = absurd hv

length-write_value : (num : ℕ) (v : Value) → FitsWire v → 0 < length (write_value num v)
unfolding encode_varint_field encode_bytes_field encode_fixed32
length-write_value num (varint v) h = rw length-append (omega (arith, length-encode_tag num 0))
length-write_value num (bytes (slice bs)) h =
    rw length-append (omega (arith, length-encode_tag num 2))
length-write_value num (bytes negative) h = absurd h
length-write_value num (fixed32 v) h = rw length-append (omega (arith, length-encode_tag num 5))
length-write_value num fixed64 h = absurd h

pub bind-cong :
    {S A : Type 0} (m : Outcome S) (f g : S → Outcome A)
    → ((s : S) → f s ≡ g s)
    → (m >>= f) ≡ (m >>= g)
bind-cong (done s) f g h = h s
bind-cong hang f g h = refl
bind-cong fault f g h = refl

module _ {S : Type 0} (step : S → ProtoField → Outcome S) where
  -- The body of the loop, over the fields in order.
  abbrev pub over_fields : List ProtoField → S → Outcome S
  over_fields [] s = done s
  over_fields (f ∷ fs) s = step s f >>= λ s'. over_fields fs s'

  pub each_field-write_fields :
      (fs : List ProtoField) (fuel : ℕ) (s : S)
      → All IsWritable fs
      → length (write_fields fs) ≤ fuel
      → each_field step fuel (write_fields fs) s ≡ over_fields fs s
  each_field-write_fields [] fuel s h hf = unfold each_field in refl
  each_field-write_fields (f ∷ fs) zero s ((hn, hv), hs) hf = absurd (
      omega (
        arith,
        length-write_value f.field_num f.val hv,
        length-append (write_value f.field_num f.val) (write_fields fs),
      ))
  each_field-write_fields (f ∷ fs) (suc fuel) s ((hn, hv), hs) hf =
      let front : List ℕ = write_value f.field_num f.val in
      each_field_read step fuel (front ++ write_fields fs) s (length front) f
        (decode_field-write f.field_num f.val (write_fields fs) hn hv)
      ∙ rw (drop-append front (write_fields fs) (length front) refl) (
          bind-cong (step s f) _ _ λ s'. each_field-write_fields fs fuel s' hs (
            omega (
              arith,
              length-write_value f.field_num f.val hv,
              length-append front (write_fields fs),
            )))

pub each_field_of-write_fields :
    {S : Type 0} (step : S → ProtoField → Outcome S) (fs : List ProtoField) (bs : List ℕ) (s : S)
    → bs ≡ write_fields fs
    → All IsWritable fs
    → each_field_of step (slice bs) s ≡ over_fields step fs s
unfolding each_field_of
each_field_of-write_fields step fs bs s e h =
    rw e (each_field-write_fields step fs (length (write_fields fs)) s h (omega arith))
