-- ===== src/Noise/Toy.antt =====
-- Concrete primitives for the tests, which no one should use for secrecy.
use bitchat_meshtastic.Prelude.{
  ℕ, ◌-◌, ◌≡◌, refl, arith, List, [], ◌++◌, length, take, replicate, Option, some, length-append,
  take-append,
}
use bitchat_meshtastic.Noise.Crypto.{Crypto, Honest}

abbrev tag : List ℕ
tag = replicate 16 0

-- The tag is sixteen zeros, every key is public.
abbrev pub toy : Crypto
toy = record {
  sha256 = λ bytes. take 32 bytes;
  hkdf = λ salt ikm. some (salt ++ ikm);
  seal = λ key n ad pt. some (pt ++ tag);
  unseal = λ key n ad ct. some (take (length ct - 16) ct);
  x25519 = λ priv remote. some [];
}

pub toy-unseal : (pt : List ℕ) → Option.some (take (length (pt ++ tag) - 16) (pt ++ tag)) ≡ some pt
toy-unseal pt =
    let e : length (pt ++ tag) - 16 ≡ length pt = omega (arith, length-append pt tag) in
    rw (e, take-append pt tag (length pt) refl)

abbrev pub toy-Honest : Honest toy
toy-Honest = record {
  kdf = λ salt ikm. salt ++ ikm;
  hkdf-kdf = λ salt ikm. refl;
  sealed = λ key n ad pt. pt ++ tag;
  seal-sealed = λ key n ad pt. refl;
  unseal-sealed = λ key n ad pt. toy-unseal pt;
  length-sealed = λ key n ad pt. length-append pt tag;
  public_key = λ priv. replicate 32 9;
  length-public_key = λ priv. refl;
  shared = λ a b. [];
  x25519-public_key = λ a b. refl;
  shared_comm = λ a b. refl;
}
