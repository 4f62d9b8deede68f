-- ===== src/Ble/Identity/Derived.antt =====
-- What holds of a derived key pair.
use bitchat_meshtastic.Prelude.{
  ℕ, ◌+◌, ◌*◌, ◌/◌, ◌%◌, ◌^◌, ◌<◌, ◌≤◌, ◌≡◌, refl, ap, ◌∙◌, arith, some, List, length, get_or, set,
  get_or-set_self, get_or-set_ne, length-set,
}
use bitchat_meshtastic.Ble.Packet.{Signer}
use bitchat_meshtastic.Ble.Identity.{
  KeyLibrary, keypair_of, salt, derive_info, clamp, bitchat_derive_keypair, ◌>>=◌,
}

-- A private key of Curve25519 as RFC 7748 wants it: a multiple of 8, and the highest bit that counts is set.
abbrev pub IsClamped : List ℕ → Type 0
IsClamped key =
    (length key ≡ 32) × (get_or key 0 0 % 8 ≡ 0) × (64 ≤ get_or key 31 0) × (get_or key 31 0 < 128)

clamp-IsClamped : (seed : List ℕ) → length seed ≡ 32 → IsClamped (clamp seed)
unfolding clamp
clamp-IsClamped seed h =
    let first = get_or seed 0 0 / 8 * 8 in
    let last = get_or seed 31 0 % 64 + 64 in
    let at_end : get_or (set (set seed 0 first) 31 last) 31 0 ≡ last =
      get_or-set_self (set seed 0 first) 31 last 0 (omega (arith, length-set seed 0 first, h)) in
    let at_start : get_or (set (set seed 0 first) 31 last) 0 0 ≡ first =
      get_or-set_ne (set seed 0 first) 31 0 last 0 (λ e. absurd (omega (arith, e)))
      ∙ get_or-set_self seed 0 first 0 (omega (arith, h)) in
    (
      length-set (set seed 0 first) 31 last ∙ length-set seed 0 first ∙ h,
      rw at_start (omega arith),
      rw at_end (omega arith),
      rw at_end (omega arith),
    )

-- Where no call of the library fails, every node has a virtual identity: its private key is clamped, its public key is
-- that of the private key, its fingerprint is the hash of the public key, and the pair for signatures is made
-- of a seed that is derived for the purpose 2.
pub bitchat_derive_keypair-IsClamped :
    (s : Signer) (lib : KeyLibrary) (master noise_seed public' sign_seed fingerprint : List ℕ)
    (node_id : ℕ)
    → lib.hkdf salt master (derive_info node_id 1) ≡ some noise_seed
    → length noise_seed ≡ 32
    → lib.base_mult (clamp noise_seed) ≡ some public'
    → lib.hkdf salt master (derive_info node_id 2) ≡ some sign_seed
    → lib.noise_sha256 public' ≡ some fingerprint
    → (bitchat_derive_keypair s lib master node_id
        ≡ some (keypair_of (clamp noise_seed) public' (s.create_keypair sign_seed) fingerprint))
      × IsClamped (clamp noise_seed)
unfolding bitchat_derive_keypair
bitchat_derive_keypair-IsClamped s lib master noise_seed public' sign_seed fp node h1 size h2 h3
      h4 =
    (
      rw (h1, ◌>>=◌) (rw (h2, ◌>>=◌) (rw (h3, ◌>>=◌) (rw (h4, ◌>>=◌) refl))),
      clamp-IsClamped noise_seed size,
    )

-- What the keys of two nodes are derived from differs, and so do the two purposes of one node.
pub derive_info-injective :
    (a b p q : ℕ) → a < 2 ^ 32 → b < 2 ^ 32 → derive_info a p ≡ derive_info b q → (a ≡ b) × (p ≡ q)
unfolding derive_info
derive_info-injective a b p q ha hb e =
    let b0 : a % 256 ≡ b % 256 = ap (λ xs. get_or xs 0 0) e in
    let b1 : a / 256 % 256 ≡ b / 256 % 256 = ap (λ xs. get_or xs 1 0) e in
    let b2 : a / 65536 % 256 ≡ b / 65536 % 256 = ap (λ xs. get_or xs 2 0) e in
    let b3 : a / 16777216 % 256 ≡ b / 16777216 % 256 = ap (λ xs. get_or xs 3 0) e in
    (omega arith, ap (λ xs. get_or xs 4 0) e)
