-- ===== src/Noise/Symmetric.antt =====
-- The symmetric state and the cipher state of src/bitchat/noise_state.h.
pub mod Mirror
use bitchat_meshtastic.Prelude.{ℕ, ◌+◌, ◌%◌, ◌^◌, ltb, is_empty, if◌then◌else◌, Bool, true, false}
use bitchat_meshtastic.Prelude.{
  Option, none, some, List, [], ◌++◌, length, take, drop, replicate, codes,
}
use bitchat_meshtastic.Noise.Crypto.{Crypto}

pub record SymmetricState : Type 0 where
  pub ck : List ℕ
  pub h : List ℕ
  pub k : List ℕ
  pub n : ℕ
  pub has_key : Bool

pub record CipherState : Type 0 where
  pub k : List ℕ
  pub n : ℕ

abbrev pub proto_name : List ℕ
proto_name = codes "Noise_XX_25519_ChaChaPoly_SHA256"

-- `n++` on a uint64_t
abbrev pub next_nonce : ℕ → ℕ
next_nonce n = (n + 1) % 2 ^ 64

module _ (c : Crypto) where
  unfoldable pub mix_hash : SymmetricState → List ℕ → SymmetricState
  mix_hash ss bytes = record ss { h = c.sha256 (ss.h ++ bytes) }

  unfoldable pub init_symmetric : SymmetricState
  unfolding mix_hash
  init_symmetric =
      mix_hash
        (record { ck = proto_name; h = proto_name; k = replicate 32 0; n = 0; has_key = false }) []

  -- A failure leaves the state as it was.
  mix_key_out : SymmetricState → Option (List ℕ) → Option SymmetricState
  mix_key_out ss none = none
  mix_key_out ss (some out) =
      some (record ss { ck = take 32 out; k = take 32 (drop 32 out); n = 0; has_key = true })

  unfoldable pub mix_key : SymmetricState → List ℕ → Option SymmetricState
  unfolding mix_key_out
  mix_key ss ikm = mix_key_out ss (c.hkdf ss.ck ikm)

  -- What follows the AEAD call: the ciphertext is hashed in if the call succeeded. `out` is what
  -- the caller gets, `hashed` the ciphertext.
  after_aead : SymmetricState → List ℕ → Option (List ℕ) → SymmetricState × Option (List ℕ)
  unfolding mix_hash
  after_aead ss hashed none = (ss, none)
  after_aead ss hashed (some out) = (mix_hash ss hashed, some out)

  after_seal : SymmetricState → Option (List ℕ) → SymmetricState × Option (List ℕ)
  unfolding mix_hash
  after_seal ss none = (ss, none)
  after_seal ss (some ct) = (mix_hash ss ct, some ct)

  -- The nonce moves on also where the call fails.
  abbrev use_nonce : SymmetricState → SymmetricState
  use_nonce ss = record ss { n = next_nonce ss.n }

  unfoldable pub encrypt_and_hash : SymmetricState → List ℕ → SymmetricState × Option (List ℕ)
  unfolding mix_hash after_seal
  encrypt_and_hash ss pt =
      if ss.has_key
      then after_seal (use_nonce ss) (c.seal ss.k ss.n ss.h pt)
      else (mix_hash ss pt, some pt)

  unfoldable pub decrypt_and_hash : SymmetricState → List ℕ → SymmetricState × Option (List ℕ)
  unfolding mix_hash after_aead
  decrypt_and_hash ss ct =
      if ss.has_key
      then (if ltb (length ct) 16
          then (ss, none)
          else after_aead (use_nonce ss) ct (c.unseal ss.k ss.n ss.h ct))
      else (if is_empty ct then (ss, some []) else (mix_hash ss ct, some ct))

  split_out : Option (List ℕ) → Option (CipherState × CipherState)
  split_out none = none
  split_out (some out) =
      some (record { k = take 32 out; n = 0 }, record { k = take 32 (drop 32 out); n = 0 })

  unfoldable pub split : SymmetricState → Option (CipherState × CipherState)
  unfolding split_out
  split ss = split_out (c.hkdf ss.ck [])

  abbrev next_cipher : CipherState → CipherState
  next_cipher cs = record cs { n = next_nonce cs.n }

  unfoldable pub cs_encrypt : CipherState → List ℕ → List ℕ → CipherState × Option (List ℕ)
  cs_encrypt cs ad pt = (next_cipher cs, c.seal cs.k cs.n ad pt)

  unfoldable pub cs_decrypt : CipherState → List ℕ → List ℕ → CipherState × Option (List ℕ)
  cs_decrypt cs ad ct =
      if ltb (length ct) 16 then (cs, none) else (next_cipher cs, c.unseal cs.k cs.n ad ct)
