-- ===== src/Noise/Handshake.antt =====
-- src/bitchat/noise_handshake.cpp: the three messages of Noise XX, and transport.
pub mod Run
pub mod Transport
pub mod Phases
use bitchat_meshtastic.Prelude.{ℕ, ◌+◌, ltb, if◌then◌else◌, Bool, true, false, not, ◌||◌, ◌&&◌}
use bitchat_meshtastic.Prelude.{
  Option, none, some, List, [], ◌∷◌, ◌++◌, length, take, drop, replicate,
}
use bitchat_meshtastic.Noise.Crypto.{Crypto}
use bitchat_meshtastic.Noise.Symmetric.{
  SymmetricState, CipherState, mix_hash, init_symmetric, mix_key, encrypt_and_hash,
  decrypt_and_hash, split, cs_encrypt, cs_decrypt,
}

pub data Role : Type 0 where
  initiator responder : Role

pub data Phase : Type 0 where
  idle await_msg2 await_msg3 transport failed : Phase

-- The nonzero return values: -1, -2 and those of the library.
pub data Code : Type 0 where
  wrong_phase too_short library : Code

pub record Handshake : Type 0 where
  pub role : Role
  pub phase : Phase
  pub s_priv : List ℕ
  pub s_pub : List ℕ
  pub e_priv : List ℕ
  pub e_pub : List ℕ
  pub re_pub : List ℕ
  pub rs_pub : List ℕ
  pub ss : SymmetricState
  pub send_cs : CipherState
  pub recv_cs : CipherState

pub data Ret (A : Type 0) : Type 0 where
  ok : A → Ret A
  err : Code → Ret A

-- A step changes `*hs` and returns 0 with what it writes, or an error code; what was changed
-- before an error stays changed.
abbrev pub M : Type 0 → Type 0
M A = Handshake → Handshake × Ret A

unfoldable pub bind_ret : {A B : Type 0} → Handshake × Ret A → (A → M B) → Handshake × Ret B
bind_ret (hs, ok a) f = f a hs
bind_ret (hs, err e) f = (hs, err e)

infixl 5 ◌>>=◌ ◌>>◌
abbrev pub ◌>>=◌ : {A B : Type 0} → M A → (A → M B) → M B
◌>>=◌ m f hs = bind_ret (m hs) f

abbrev pub ◌>>◌ : {B : Type 0} → M (Unit {0}) → M B → M B
m >> k = m >>= λ _. k

abbrev get : {A : Type 0} → (Handshake → A) → M A
get f hs = (hs, ok (f hs))

abbrev modify : (Handshake → Handshake) → M (Unit {0})
modify f hs = (f hs, ok tt)

abbrev return : {A : Type 0} → A → M A
return a hs = (hs, ok a)

abbrev fails : {A : Type 0} → Code → M A
fails e hs = (hs, err e)

-- `{ hs->phase = NOISE_HS_FAILED; return ret; }` on every error of the body
abbrev mark_failed : {A : Type 0} → Handshake × Ret A → Handshake × Ret A
mark_failed (hs, ok a) = (hs, ok a)
mark_failed (hs, err e) = (record hs { phase = failed }, err e)

abbrev or_fail : {A : Type 0} → M A → M A
or_fail m hs = mark_failed (m hs)

abbrev check : {A : Type 0} → Option A → M A
check none hs = (hs, err library)
check (some a) hs = (hs, ok a)

abbrev is_initiator : Role → Bool
is_initiator initiator = true
is_initiator responder = false

abbrev pub is_idle : Phase → Bool
is_idle idle = true
is_idle _ = false

abbrev awaits_msg2 : Phase → Bool
awaits_msg2 await_msg2 = true
awaits_msg2 _ = false

abbrev awaits_msg3 : Phase → Bool
awaits_msg3 await_msg3 = true
awaits_msg3 _ = false

abbrev pub is_transport : Phase → Bool
is_transport transport = true
is_transport _ = false

abbrev zeros : List ℕ
zeros = replicate 32 0

abbrev no_cipher : CipherState
no_cipher = record { k = zeros; n = 0 }

module _ (c : Crypto) where
  -- The key pair is what `noise_gen_keypair` returns; the state is set before it is called.
  unfoldable pub hs_init :
      Role → List ℕ → List ℕ → Option (List ℕ × List ℕ) → Handshake × Ret (Unit {0})
  hs_init role s_priv s_pub keypair = elim keypair [
    | none ↦ (fresh, err library)
    | some (priv, pub') ↦ (record fresh { e_priv = priv; e_pub = pub' }, ok tt)
  ]
    where
      fresh : Handshake
      fresh = record {
        role = role;
        phase = idle;
        s_priv = s_priv;
        s_pub = s_pub;
        e_priv = zeros;
        e_pub = zeros;
        re_pub = zeros;
        rs_pub = zeros;
        ss = init_symmetric c;
        send_cs = no_cipher;
        recv_cs = no_cipher;
      }

  abbrev hash_in : List ℕ → M (Unit {0})
  hash_in bytes = modify (λ hs. record hs { ss = mix_hash c hs.ss bytes })

  -- `noise_dh`, then `noise_mix_key`
  unfoldable pub dh_mix : List ℕ → List ℕ → M (Unit {0})
  dh_mix priv remote hs = elim (c.x25519 priv remote) [
    | none ↦ (hs, err library)
    | some dh ↦ elim (mix_key c hs.ss dh) [
      | none ↦ (hs, err library)
      | some ss ↦ (record hs { ss = ss }, ok tt)
    ]
  ]

  abbrev sealed_in : Handshake → SymmetricState × Option (List ℕ) → Handshake × Ret (List ℕ)
  sealed_in hs (ss, out) = check out (record hs { ss = ss })

  unfoldable pub encrypt_static : M (List ℕ)
  encrypt_static hs = sealed_in hs (encrypt_and_hash c hs.ss hs.s_pub)

  -- The remote static key goes into `hs->rs_pub`.
  unfoldable pub decrypt_static : List ℕ → M (Unit {0})
  decrypt_static ct = do
    rs ← (λ hs. sealed_in hs (decrypt_and_hash c hs.ss ct))
    modify (λ hs. record hs { rs_pub = rs })

  abbrev with_ciphers : Role → CipherState × CipherState → Handshake → Handshake
  with_ciphers initiator (first, second) hs = record hs { send_cs = first; recv_cs = second }
  with_ciphers responder (first, second) hs = record hs { recv_cs = first; send_cs = second }

  unfoldable pub split_for : Role → M (Unit {0})
  split_for role = do cs ← (λ hs. check (split c hs.ss) hs); modify (with_ciphers role cs)

  unfoldable pub write_msg1 : M (List ℕ)
  unfolding bind_ret
  write_msg1 hs =
      if not (is_idle hs.phase) || not (is_initiator hs.role)
      then (hs, err wrong_phase)
      else (do hash_in hs.e_pub; modify (λ hs. record hs { phase = await_msg2 }); return hs.e_pub)
          hs

  read_msg1_body : List ℕ → M (List ℕ)
  read_msg1_body msg1 = do
    modify (λ hs. record hs { re_pub = take 32 msg1 })
    hash_in (take 32 msg1)
    e_pub ← get (λ hs. hs.e_pub)
    hash_in e_pub
    e_priv ← get (λ hs. hs.e_priv)
    dh_mix e_priv (take 32 msg1)
    enc ← encrypt_static
    s_priv ← get (λ hs. hs.s_priv)
    dh_mix s_priv (take 32 msg1)
    modify (λ hs. record hs { phase = await_msg3 })
    return (e_pub ++ enc)

  unfoldable pub read_msg1_write_msg2 : List ℕ → M (List ℕ)
  unfolding read_msg1_body
  read_msg1_write_msg2 msg1 hs =
      if not (is_idle hs.phase) || is_initiator hs.role
      then (hs, err wrong_phase)
      else if ltb (length msg1) 32
      then (record hs { phase = failed }, err too_short)
      else or_fail (read_msg1_body msg1) hs

  read_msg2_body : List ℕ → M (List ℕ)
  read_msg2_body msg2 = do
    let re = take 32 msg2
    modify (λ hs. record hs { re_pub = re })
    hash_in re
    e_priv ← get (λ hs. hs.e_priv)
    dh_mix e_priv re
    decrypt_static (take 48 (drop 32 msg2))
    rs ← get (λ hs. hs.rs_pub)
    dh_mix e_priv rs
    enc ← encrypt_static
    s_priv ← get (λ hs. hs.s_priv)
    dh_mix s_priv re
    split_for initiator
    modify (λ hs. record hs { phase = transport })
    return enc

  unfoldable pub read_msg2_write_msg3 : List ℕ → M (List ℕ)
  unfolding read_msg2_body
  read_msg2_write_msg3 msg2 hs =
      if not (awaits_msg2 hs.phase) || not (is_initiator hs.role)
      then (hs, err wrong_phase)
      else if ltb (length msg2) 80
      then (record hs { phase = failed }, err too_short)
      else or_fail (read_msg2_body msg2) hs

  read_msg3_body : List ℕ → M (Unit {0})
  read_msg3_body msg3 = do
    decrypt_static (take 48 msg3)
    e_priv ← get (λ hs. hs.e_priv)
    rs ← get (λ hs. hs.rs_pub)
    dh_mix e_priv rs
    split_for responder
    modify (λ hs. record hs { phase = transport })

  unfoldable pub read_msg3 : List ℕ → M (Unit {0})
  unfolding read_msg3_body
  read_msg3 msg3 hs =
      if not (awaits_msg3 hs.phase) || is_initiator hs.role
      then (hs, err wrong_phase)
      else if ltb (length msg3) 48
      then (record hs { phase = failed }, err too_short)
      else or_fail (read_msg3_body msg3) hs

  abbrev sent_with : Handshake → CipherState × Option (List ℕ) → Handshake × Ret (List ℕ)
  sent_with hs (cs, out) = check out (record hs { send_cs = cs })

  abbrev received_with : Handshake → CipherState × Option (List ℕ) → Handshake × Ret (List ℕ)
  received_with hs (cs, out) = check out (record hs { recv_cs = cs })

  unfoldable pub hs_encrypt : List ℕ → List ℕ → M (List ℕ)
  hs_encrypt ad pt hs =
      if is_transport hs.phase
      then sent_with hs (cs_encrypt c hs.send_cs ad pt)
      else (hs, err wrong_phase)

  unfoldable pub hs_decrypt : List ℕ → List ℕ → M (List ℕ)
  hs_decrypt ad ct hs =
      if is_transport hs.phase
      then received_with hs (cs_decrypt c hs.recv_cs ad ct)
      else (hs, err wrong_phase)
