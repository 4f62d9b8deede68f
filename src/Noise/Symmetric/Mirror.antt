-- ===== src/Noise/Symmetric/Mirror.antt =====
-- Reader and writer of one message keep equal symmetric states.
use bitchat_meshtastic.Prelude.{ℕ, ◌+◌, ◌≡◌, refl, arith, ltb, true, false}
use bitchat_meshtastic.Prelude.{some, List, length}
use bitchat_meshtastic.Noise.Crypto.{Crypto, Honest}
use bitchat_meshtastic.Noise.Symmetric.{
  SymmetricState, mix_hash, encrypt_and_hash, decrypt_and_hash, use_nonce, CipherState, cs_encrypt,
  cs_decrypt, next_cipher,
}

module _ (c : Crypto) (good : Honest c) where
  open good use {sealed, seal-sealed, unseal-sealed, length-sealed}

  -- The state after a key has encrypted `pt`.
  abbrev pub mixed : SymmetricState → List ℕ → SymmetricState
  mixed ss pt = mix_hash c (use_nonce c ss) (sealed ss.k ss.n ss.h pt)

  pub encrypt_and_hash-keyed :
      (ss : SymmetricState) (pt : List ℕ)
      → ss.has_key ≡ true
      → encrypt_and_hash c ss pt ≡ (mixed ss pt, some (sealed ss.k ss.n ss.h pt))
  unfolding encrypt_and_hash
  encrypt_and_hash-keyed ss pt h = rw (h, seal-sealed) refl

  pub decrypt_and_hash-keyed :
      (ss : SymmetricState) (pt : List ℕ)
      → ss.has_key ≡ true
      → decrypt_and_hash c ss (sealed ss.k ss.n ss.h pt) ≡ (mixed ss pt, some pt)
  unfolding decrypt_and_hash
  decrypt_and_hash-keyed ss pt h =
      let long : ltb (length (sealed ss.k ss.n ss.h pt)) 16 ≡ false =
        ground (arith, length-sealed ss.k ss.n ss.h pt) in
      rw (h, long, unseal-sealed) refl

  -- What one side encrypts and hashes under a key the other decrypts, and the two states, equal
  -- before, are equal after.
  pub decrypt_and_hash-encrypt_and_hash :
      (ss : SymmetricState) (pt : List ℕ)
      → ss.has_key ≡ true
      → (ct : List ℕ) × (encrypt_and_hash c ss pt ≡ (mixed ss pt, some ct))
        × (decrypt_and_hash c ss ct ≡ (mixed ss pt, some pt))
        × (length ct ≡ length pt + 16)
  decrypt_and_hash-encrypt_and_hash ss pt h = (
    sealed ss.k ss.n ss.h pt,
    encrypt_and_hash-keyed ss pt h,
    decrypt_and_hash-keyed ss pt h,
    length-sealed ss.k ss.n ss.h pt,
  )

  -- A text that the transport encrypts decrypts under the same cipher state and associated data,
  -- and both ends move on to the same state.
  pub cs_decrypt-cs_encrypt :
      (cs : CipherState) (ad pt : List ℕ)
      → (ct : List ℕ) × (cs_encrypt c cs ad pt ≡ (next_cipher c cs, some ct))
        × (cs_decrypt c cs ad ct ≡ (next_cipher c cs, some pt))
        × (length ct ≡ length pt + 16)
  unfolding cs_encrypt cs_decrypt
  cs_decrypt-cs_encrypt cs ad pt =
      let long : ltb (length (sealed cs.k cs.n ad pt)) 16 ≡ false =
        ground (arith, length-sealed cs.k cs.n ad pt) in
      (
        sealed cs.k cs.n ad pt,
        rw seal-sealed refl,
        rw (long, unseal-sealed) refl,
        length-sealed cs.k cs.n ad pt,
      )
