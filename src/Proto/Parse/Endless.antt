-- ===== src/Proto/Parse/Endless.antt =====
-- The parsers on a field of negative length, and on buffers that hold none.
use bitchat_meshtastic.Prelude.{ℕ, zero, suc, ◌^◌, ◌≤◌, ◌<◌, ◌≡◌, ◌≢◌, refl, arith}
use bitchat_meshtastic.Prelude.{Option, none, some, List, [], ◌∷◌, length, drop}
use bitchat_meshtastic.Prelude.{
  ◌==◌, if◌then◌else◌, inl, inr, Bool-cases, Option-cases, length-drop,
}
use bitchat_meshtastic.Proto.Field.{Slice, negative, bytes, ProtoField, decode_field}
use bitchat_meshtastic.Proto.Field.Progress.{minus_six, decode_field-minus_six, decode_field-Moves}
use bitchat_meshtastic.Proto.Loop.{done, hang, each_field_of}
use bitchat_meshtastic.Proto.Loop.Ends.{NoNegative, NoNegative-drop, each_field-minus_six}
use bitchat_meshtastic.Proto.Report.{FloatPrinter}
use bitchat_meshtastic.Proto.Parse.{
  find_bytes, parse_from_radio, parse_node_info, is_config_complete, config_loop, completes,
}

find_bytes_done :
    (wanted num : ℕ) (s : Option Slice)
    → (s' : Option Slice) × (find_bytes wanted s (record { field_num = num; val = bytes negative })
        ≡ done s')
unfolding find_bytes
find_bytes_done wanted num s = (if num == wanted then some negative else s, refl)

config_loop-minus_six :
    (nonce fuel num : ℕ) (rest : List ℕ)
    → num < 16
    → config_loop nonce fuel (minus_six num rest) ≡ hang
unfolding config_loop
config_loop-minus_six nonce zero num rest h = refl
config_loop-minus_six nonce (suc fuel) num rest h =
    rw (decode_field-minus_six num rest h, config_loop)
      (config_loop-minus_six nonce fuel num rest h)

-- A FromRadio payload that begins with a length-delimited field of a number below 16 and of length
-- -6, whatever follows, keeps each of the three parsers in its first loop for ever.
pub parsers_hang :
    (fmt : FloatPrinter) (num nonce : ℕ) (rest : List ℕ)
    → num < 16
    → (parse_from_radio fmt (minus_six num rest) ≡ hang)
      × (parse_node_info (minus_six num rest) ≡ hang)
      × (is_config_complete (minus_six num rest) nonce ≡ hang)
unfolding parse_from_radio parse_node_info is_config_complete each_field_of
parsers_hang fmt num nonce rest h = (
  rw (each_field-minus_six (find_bytes 2) _ num rest none h (find_bytes_done 2 num)),
  rw (each_field-minus_six (find_bytes 4) _ num rest none h (find_bytes_done 4 num)),
  config_loop-minus_six nonce (length (minus_six num rest)) num rest h,
)

config_loop-ends :
    (nonce fuel : ℕ) (buf : List ℕ)
    → length buf < 2 ^ 30
    → length buf ≤ fuel
    → NoNegative buf
    → config_loop nonce fuel buf ≢ hang
unfolding config_loop
config_loop-ends nonce fuel [] hl hf h = λ e. cc
config_loop-ends nonce zero (b ∷ bs) hl hf h = absurd (omega arith)
config_loop-ends nonce (suc fuel) (b ∷ bs) hl hf h = elim (Option-cases (decode_field (b ∷ bs))) [
  | inl e ↦ rw (e, config_loop) (λ p. cc)
  | inr ((n, f), e) ↦ elim (Bool-cases (completes nonce f.field_num f.val)) [
    | inl e' ↦ rw (e, e', config_loop) (λ p. cc)
    | inr e' ↦
        rw (e, e', config_loop)
          (config_loop-ends nonce fuel (drop n (b ∷ bs)) (omega (arith, length-drop n (b ∷ bs)))
            (omega (arith, length-drop n (b ∷ bs), moved n f e)) (NoNegative-drop n (b ∷ bs) h))
  ]
]
  where
    moved : (n : ℕ) (f : ProtoField) → decode_field (b ∷ bs) ≡ some (n, f) → 0 < n
    moved n f e = elim (decode_field-Moves (b ∷ bs) n f hl e).0 [
      | inl p ↦ p
      | inr q ↦ absurd (h 0 n f e q)
    ]

-- With no field of negative length anywhere in a payload of fewer than 2^30 bytes, the search for the config nonce ends.
pub is_config_complete-ends :
    (buf : List ℕ) (nonce : ℕ)
    → length buf < 2 ^ 30
    → NoNegative buf
    → is_config_complete buf nonce ≢ hang
unfolding is_config_complete
is_config_complete-ends buf nonce hl h = config_loop-ends nonce (length buf) buf hl (omega arith) h
