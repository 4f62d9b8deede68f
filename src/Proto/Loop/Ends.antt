-- ===== src/Proto/Loop/Ends.antt =====
-- When the field loop ends, and when it does not.
use bitchat_meshtastic.Prelude.{ℕ, zero, suc, ◌+◌, ◌^◌, ◌≤◌, ◌<◌, ◌≡◌, ◌≢◌, ◌∙◌, refl, arith}
use bitchat_meshtastic.Prelude.{none, some, List, [], ◌∷◌, length, drop, inl, inr}
use bitchat_meshtastic.Prelude.{length-drop, drop-drop, Option-cases}
use bitchat_meshtastic.Proto.Field.{negative, bytes, ProtoField, decode_field}
use bitchat_meshtastic.Proto.Field.Progress.{decode_field-Moves, minus_six, decode_field-minus_six}
use bitchat_meshtastic.Proto.Loop.{Outcome, done, hang, fault, ◌>>=◌, each_field}

-- No field that can be read at any place of the buffer has a negative length.
abbrev pub NoNegative : List ℕ → Type 0
NoNegative buf =
    (k n : ℕ) (f : ProtoField) → decode_field (drop k buf) ≡ some (n, f) → f.val ≢ bytes negative

pub NoNegative-drop : (n : ℕ) (buf : List ℕ) → NoNegative buf → NoNegative (drop n buf)
NoNegative-drop n buf h k m f e = h (n + k) m f (rw (drop-drop k n buf) at e)

module _ {S : Type 0} (step : S → ProtoField → Outcome S) where
  pub each_field_read :
      (fuel : ℕ) (buf : List ℕ) (s : S) (n : ℕ) (f : ProtoField)
      → decode_field buf ≡ some (n, f)
      → each_field step (suc fuel) buf s ≡ (step s f >>= λ s'. each_field step fuel (drop n buf) s')
  unfolding each_field
  each_field_read fuel [] s n f e = unfold decode_field in cc
  each_field_read fuel (b ∷ bs) s n f e = rw (e, each_field)

  each_field_stop :
      (fuel : ℕ) (buf : List ℕ) (s : S)
      → decode_field buf ≡ none
      → each_field step (suc fuel) buf s ≡ done s
  unfolding each_field
  each_field_stop fuel [] s e = refl
  each_field_stop fuel (b ∷ bs) s e = rw (e, each_field)

  bind-ne-hang :
      {A : Type 0} (m : Outcome S) (k : S → Outcome A)
      → m ≢ hang
      → ((s : S) → k s ≢ hang)
      → (m >>= k) ≢ hang
  bind-ne-hang (done s) k hm hk = hk s
  bind-ne-hang hang k hm hk = absurd (hm refl)
  bind-ne-hang fault k hm hk = λ e. cc

  pub each_field-ends :
      (fuel : ℕ) (buf : List ℕ) (s : S)
      → length buf < 2 ^ 30
      → length buf ≤ fuel
      → NoNegative buf
      → ((s : S) (f : ProtoField) → step s f ≢ hang)
      → each_field step fuel buf s ≢ hang
  each_field-ends fuel [] s hl hf h hs = unfold each_field in λ e. cc
  each_field-ends zero (b ∷ bs) s hl hf h hs = absurd (omega arith)
  each_field-ends (suc fuel) (b ∷ bs) s hl hf h hs = elim (Option-cases (decode_field (b ∷ bs))) [
    | inl e ↦ rw (each_field_stop fuel (b ∷ bs) s e) (λ p. cc)
    | inr ((n, f), e) ↦ rw (each_field_read fuel (b ∷ bs) s n f e) (
        bind-ne-hang (step s f) (λ s'. each_field step fuel (drop n (b ∷ bs)) s') (hs s f)
          (λ s'.
            each_field-ends fuel (drop n (b ∷ bs)) s' (omega (arith, length-drop n (b ∷ bs)))
              (omega (arith, length-drop n (b ∷ bs), moved n f e)) (NoNegative-drop n (b ∷ bs) h)
              hs))
  ]
    where
      moved : (n : ℕ) (f : ProtoField) → decode_field (b ∷ bs) ≡ some (n, f) → 0 < n
      moved n f e = elim (decode_field-Moves (b ∷ bs) n f hl e).0 [
        | inl p ↦ p
        | inr q ↦ absurd (h 0 n f e q)
      ]

  -- The loop goes round for ever, whatever fuel it has, once it meets a field of length -6.
  pub each_field-minus_six :
      (fuel num : ℕ) (rest : List ℕ) (s : S)
      → num < 16
      → ((s : S) → (s' : S) × (step s (record { field_num = num; val = bytes negative }) ≡ done s'))
      → each_field step fuel (minus_six num rest) s ≡ hang
  each_field-minus_six zero num rest s h go = unfold each_field in refl
  each_field-minus_six (suc fuel) num rest s h go =
      each_field_read fuel (minus_six num rest) s 0 _ (decode_field-minus_six num rest h)
      ∙ rw (go s).1 (each_field-minus_six fuel num rest (go s).0 h go)
