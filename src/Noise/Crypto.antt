-- ===== src/Noise/Crypto.antt =====
-- What the Noise layer asks of mbedtls, and what it relies on.
use bitchat_meshtastic.Prelude.{ℕ, ◌+◌, ◌≡◌, Option, some, List, length}

-- SHA-256, HKDF-SHA256 with empty info and 64 bytes of output, ChaCha20-Poly1305 (key, nonce
-- counter, associated data, text; the tag is the last 16 bytes of the ciphertext) and X25519
-- (private key, remote public key). `none` is an error code.
pub record Crypto : Type 0 where
  pub sha256 : List ℕ → List ℕ
  pub hkdf : List ℕ → List ℕ → Option (List ℕ)
  pub seal : List ℕ → ℕ → List ℕ → List ℕ → Option (List ℕ)
  pub unseal : List ℕ → ℕ → List ℕ → List ℕ → Option (List ℕ)
  pub x25519 : List ℕ → List ℕ → Option (List ℕ)

-- Documented behaviour, where no call fails: a sealed text opens under the same key, nonce and
-- associated data, the tag has 16 bytes, and two X25519 key pairs agree on a secret.
pub record Honest (c : Crypto) : Type 0 where
  pub kdf : List ℕ → List ℕ → List ℕ
  pub hkdf-kdf : (salt ikm : List ℕ) → c.hkdf salt ikm ≡ some (kdf salt ikm)
  pub sealed : List ℕ → ℕ → List ℕ → List ℕ → List ℕ
  pub seal-sealed :
      (key : List ℕ) (n : ℕ) (ad pt : List ℕ) → c.seal key n ad pt ≡ some (sealed key n ad pt)
  pub unseal-sealed :
      (key : List ℕ) (n : ℕ) (ad pt : List ℕ) → c.unseal key n ad (sealed key n ad pt) ≡ some pt
  pub length-sealed :
      (key : List ℕ) (n : ℕ) (ad pt : List ℕ) → length (sealed key n ad pt) ≡ length pt + 16
  pub public_key : List ℕ → List ℕ
  pub length-public_key : (priv : List ℕ) → length (public_key priv) ≡ 32
  pub shared : List ℕ → List ℕ → List ℕ
  pub x25519-public_key : (a b : List ℕ) → c.x25519 a (public_key b) ≡ some (shared a b)
  pub shared_comm : (a b : List ℕ) → shared a b ≡ shared b a
