-- ===== src/Ble/Identity.antt =====
-- src/bitchat/bitchat_identity.h: the keys of the bridge and those of the virtual identities.
pub mod Derived
use bitchat_meshtastic.Prelude.{
  ℕ, ◌+◌, ◌-◌, ◌*◌, ◌/◌, ◌%◌, ◌==◌, if◌then◌else◌, Bool, true, false, Option, none, some, List, [],
  ◌∷◌, ◌++◌, length, get_or, set, take, replicate, codes, le32, hex_byte,
}
use bitchat_meshtastic.Ble.Packet.{Signer}

pub record BitchatKeypair : Type 0 where
  pub noise_private : List ℕ
  pub noise_public : List ℕ
  pub sign_private : List ℕ
  pub sign_public : List ℕ
  pub fingerprint : List ℕ

-- What the file asks of mbedtls: SHA-256, HKDF-SHA256 of 32 bytes (salt, key material, info), and
-- the public key of a Curve25519 private key. `none` is an error code.
pub record KeyLibrary : Type 0 where
  pub noise_sha256 : List ℕ → Option (List ℕ)
  pub hkdf : List ℕ → List ℕ → List ℕ → Option (List ℕ)
  pub base_mult : List ℕ → Option (List ℕ)

infixl 5 ◌>>=◌
abbrev ◌>>=◌ : {A B : Type 0} → Option A → (A → Option B) → Option B
none >>= f = none
some a >>= f = f a

-- The blob that the flash holds has the size of a key pair, or there is none.
abbrev pub keypair_of : List ℕ → List ℕ → List ℕ × List ℕ → List ℕ → BitchatKeypair
keypair_of priv public' (sign_public, sign_private) fingerprint = record {
  noise_private = priv;
  noise_public = public';
  sign_private = sign_private;
  sign_public = sign_public;
  fingerprint = fingerprint;
}

-- Where the flash does not open or holds no key pair, a fresh one is made of what
-- `noise_gen_keypair` returns and of a random seed; it is stored if the flash opens. The result is
-- the key pair, and whether it was stored.
unfoldable pub bitchat_identity_init :
    Signer
    → KeyLibrary
    → Bool
    → Option BitchatKeypair
    → Option (List ℕ × List ℕ)
    → List ℕ
    → Option (BitchatKeypair × Bool)
bitchat_identity_init s lib opens stored fresh seed = elim stored [
  | some kp ↦ if opens then some (kp, false) else generate
  | none ↦ generate
]
  where
    generate : Option (BitchatKeypair × Bool)
    generate = do
      (priv, public') ← fresh
      fingerprint ← lib.noise_sha256 public'
      some (keypair_of priv public' (s.create_keypair seed) fingerprint, opens)

-- The first four bytes in hexadecimal digits.
unfoldable pub bitchat_fingerprint_short : List ℕ → List ℕ
bitchat_fingerprint_short fp =
    hex_byte (get_or fp 0 0)
    ++ (hex_byte (get_or fp 1 0) ++ (hex_byte (get_or fp 2 0) ++ hex_byte (get_or fp 3 0)))

abbrev pub salt : List ℕ
salt = codes "bitchat-virtual-id"

unfoldable pub derive_info : ℕ → ℕ → List ℕ
derive_info node_id purpose = le32 node_id ++ (purpose ∷ [])

-- `&= 248`, `&= 127` and `|= 64` (RFC 7748).
unfoldable pub clamp : List ℕ → List ℕ
clamp seed =
    let first = get_or seed 0 0 / 8 * 8 in
    let last = get_or seed 31 0 % 64 + 64 in set (set seed 0 first) 31 last

unfoldable pub bitchat_derive_keypair : Signer → KeyLibrary → List ℕ → ℕ → Option BitchatKeypair
bitchat_derive_keypair s lib master node_id = do
  noise_seed ← lib.hkdf salt master (derive_info node_id 1)
  let priv = clamp noise_seed
  public' ← lib.base_mult priv
  sign_seed ← lib.hkdf salt master (derive_info node_id 2)
  fingerprint ← lib.noise_sha256 public'
  some (keypair_of priv public' (s.create_keypair sign_seed) fingerprint)
