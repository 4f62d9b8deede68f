-- ===== src/Noise/Handshake/Run.antt =====
-- A whole handshake between an initiator and a responder, where no library call fails.
use bitchat_meshtastic.Prelude.{ℕ, ◌≡◌, sym, refl, arith, ltb, true, false}
use bitchat_meshtastic.Prelude.{
  some, List, [], ◌++◌, length, take, drop, take-append, drop-append, take_all, length-append,
}
use bitchat_meshtastic.Noise.Crypto.{Crypto, Honest}
use bitchat_meshtastic.Noise.Symmetric.{
  SymmetricState, CipherState, mix_hash, init_symmetric, mix_key, split,
}
use bitchat_meshtastic.Noise.Symmetric.Mirror.{
  mixed, encrypt_and_hash-keyed, decrypt_and_hash-keyed,
}
use bitchat_meshtastic.Noise.Handshake.{
  Role, initiator, responder, Phase, await_msg2, await_msg3, transport, Handshake, ok, hs_init,
  dh_mix, encrypt_static, decrypt_static, split_for, write_msg1, read_msg1_write_msg2,
  read_msg2_write_msg3, read_msg3, with_ciphers, bind_ret,
}

-- A handshake from `i` and `r` on that completes. Its three messages are accepted; they have 32, 80
-- and 48 bytes; both ends are then in transport, know the static key of the other, and hold the
-- same two cipher states crosswise.
pub record Agreement (c : Crypto) (i r : Handshake) : Type 0 where
  pub msg1 : List ℕ
  pub msg2 : List ℕ
  pub msg3 : List ℕ
  pub i' : Handshake
  pub r' : Handshake
  pub i'' : Handshake
  pub r'' : Handshake
  pub sends_1 : write_msg1 c i ≡ (i', ok msg1)
  pub answers_2 : read_msg1_write_msg2 c msg1 r ≡ (r', ok msg2)
  pub answers_3 : read_msg2_write_msg3 c msg2 i' ≡ (i'', ok msg3)
  pub finishes : read_msg3 c msg3 r' ≡ (r'', ok tt)
  pub size_1 : length msg1 ≡ 32
  pub size_2 : length msg2 ≡ 80
  pub size_3 : length msg3 ≡ 48
  pub i_waits : i'.phase ≡ await_msg2
  pub r_waits : r'.phase ≡ await_msg3
  pub i_done : i''.phase ≡ transport
  pub r_done : r''.phase ≡ transport
  pub i_knows : i''.rs_pub ≡ r.s_pub
  pub r_knows : r''.rs_pub ≡ i.s_pub
  pub i_to_r : i''.send_cs ≡ r''.recv_cs
  pub r_to_i : i''.recv_cs ≡ r''.send_cs

module _ (c : Crypto) (good : Honest c) where
  open good use {
    kdf, hkdf-kdf, sealed, length-sealed, public_key, length-public_key, shared, x25519-public_key,
    shared_comm,
  }

  abbrev keyed : SymmetricState → List ℕ → SymmetricState
  keyed ss ikm = record ss {
    ck = take 32 (kdf ss.ck ikm);
    k = take 32 (drop 32 (kdf ss.ck ikm));
    n = 0;
    has_key = true;
  }

  mix_key-keyed : (ss : SymmetricState) (ikm : List ℕ) → mix_key c ss ikm ≡ some (keyed ss ikm)
  unfolding mix_key
  mix_key-keyed ss ikm = rw hkdf-kdf refl

  dh_mix-keyed :
      (a b : List ℕ) (hs : Handshake)
      → dh_mix c a (public_key b) hs ≡ (record hs { ss = keyed hs.ss (shared a b) }, ok tt)
  unfolding dh_mix
  dh_mix-keyed a b hs = rw (x25519-public_key a b, dh_mix, mix_key-keyed) refl

  encrypt_static-keyed :
      (hs : Handshake)
      → hs.ss.has_key ≡ true
      → encrypt_static c hs ≡ (
        record hs { ss = mixed c good hs.ss hs.s_pub },
        ok (sealed hs.ss.k hs.ss.n hs.ss.h hs.s_pub),
      )
  unfolding encrypt_static
  encrypt_static-keyed hs h = rw (encrypt_and_hash-keyed c good hs.ss hs.s_pub h) refl

  decrypt_static-keyed :
      (hs : Handshake) (pt : List ℕ)
      → hs.ss.has_key ≡ true
      → decrypt_static c (sealed hs.ss.k hs.ss.n hs.ss.h pt) hs
        ≡ (record hs { ss = mixed c good hs.ss pt; rs_pub = pt }, ok tt)
  unfolding decrypt_static bind_ret
  decrypt_static-keyed hs pt h = rw (decrypt_and_hash-keyed c good hs.ss pt h) refl

  -- The same at a state whose fields are written out, for `simp`.
  module _ (role : Role) (phase : Phase) (s_priv s_pub e_priv e_pub re_pub rs_pub ck h k : List ℕ)
      (n : ℕ) (send_cs recv_cs : CipherState) where
    abbrev with_key : SymmetricState
    with_key = record { ck = ck; h = h; k = k; n = n; has_key = true }

    abbrev at : Handshake
    at = record {
      role = role;
      phase = phase;
      s_priv = s_priv;
      s_pub = s_pub;
      e_priv = e_priv;
      e_pub = e_pub;
      re_pub = re_pub;
      rs_pub = rs_pub;
      ss = with_key;
      send_cs = send_cs;
      recv_cs = recv_cs;
    }

    encrypt_static-at :
        encrypt_static c at
        ≡ (record at { ss = mixed c good with_key s_pub }, ok (sealed k n h s_pub))
    encrypt_static-at = encrypt_static-keyed at refl

    decrypt_static-at :
        (pt : List ℕ)
        → decrypt_static c (sealed k n h pt) at
          ≡ (record at { ss = mixed c good with_key pt; rs_pub = pt }, ok tt)
    decrypt_static-at pt = decrypt_static-keyed at pt refl

  abbrev ciphers : SymmetricState → CipherState × CipherState
  ciphers ss = (
    record { k = take 32 (kdf ss.ck []); n = 0 },
    record { k = take 32 (drop 32 (kdf ss.ck [])); n = 0 },
  )

  split_for-ciphers :
      (role : Role) (hs : Handshake)
      → split_for c role hs ≡ (with_ciphers c role (ciphers hs.ss) hs, ok tt)
  unfolding split_for split bind_ret
  split_for-ciphers role hs = rw hkdf-kdf refl

  -- A handshake that starts on a static and an ephemeral private key.
  abbrev pub start : Role → List ℕ → List ℕ → Handshake
  start role s e = (hs_init c role s (public_key s) (some (e, public_key e))).0

  -- The private keys: static and ephemeral, of the initiator and of the responder.
  module _ (si ei sr er : List ℕ) where
    abbrev ss₂ : SymmetricState
    ss₂ = mix_hash c (mix_hash c (init_symmetric c) (public_key ei)) (public_key er)

    abbrev ss₃ : SymmetricState
    ss₃ = keyed ss₂ (shared er ei)

    abbrev ss₅ : SymmetricState
    ss₅ = keyed (mixed c good ss₃ (public_key sr)) (shared sr ei)

    abbrev ss₇ : SymmetricState
    ss₇ = keyed (mixed c good ss₅ (public_key si)) (shared si er)

    abbrev enc₂ : List ℕ
    enc₂ = sealed ss₃.k ss₃.n ss₃.h (public_key sr)

    abbrev enc₃ : List ℕ
    enc₃ = sealed ss₅.k ss₅.n ss₅.h (public_key si)

    -- The two sides after each message.
    abbrev i₁ : Handshake
    i₁ = record (start initiator si ei) {
      ss = mix_hash c (init_symmetric c) (public_key ei);
      phase = await_msg2;
    }

    abbrev r₁ : Handshake
    r₁ = record (start responder sr er) { re_pub = public_key ei; ss = ss₅; phase = await_msg3 }

    abbrev i₂ : Handshake
    i₂ = record i₁ {
      re_pub = public_key er;
      rs_pub = public_key sr;
      ss = ss₇;
      send_cs = (ciphers ss₇).0;
      recv_cs = (ciphers ss₇).1;
      phase = transport;
    }

    abbrev r₂ : Handshake
    r₂ = record r₁ {
      rs_pub = public_key si;
      ss = ss₇;
      send_cs = (ciphers ss₇).1;
      recv_cs = (ciphers ss₇).0;
      phase = transport;
    }

    message₁ : write_msg1 c (start initiator si ei) ≡ (i₁, ok (public_key ei))
    unfolding write_msg1 hs_init
    message₁ = refl

    key_whole : (priv rest : List ℕ) → take 32 (public_key priv ++ rest) ≡ public_key priv
    key_whole priv rest = take-append (public_key priv) rest 32 (sym (length-public_key priv))

    key_alone : (priv : List ℕ) → take 32 (public_key priv) ≡ public_key priv
    key_alone priv = take_all 32 (public_key priv) (omega (arith, length-public_key priv))

    message₂ :
        read_msg1_write_msg2 c (public_key ei) (start responder sr er)
        ≡ (r₁, ok (public_key er ++ enc₂))
    unfolding read_msg1_write_msg2 hs_init bind_ret
    message₂ =
        let long : ltb (length (public_key ei)) 32 ≡ false = ground (arith, length-public_key ei) in
        rw long (simp (key_alone, dh_mix-keyed, encrypt_static-at))

    length-sealed_key :
        (key : List ℕ) (n : ℕ) (ad priv : List ℕ) → length (sealed key n ad (public_key priv)) ≡ 48
    length-sealed_key key n ad priv =
        omega (arith, length-sealed key n ad (public_key priv), length-public_key priv)

    sealed_alone :
        (key : List ℕ) (n : ℕ) (ad priv : List ℕ)
        → take 48 (sealed key n ad (public_key priv)) ≡ sealed key n ad (public_key priv)
    sealed_alone key n ad priv =
        take_all 48 (sealed key n ad (public_key priv))
          (omega (arith, length-sealed_key key n ad priv))

    message₃ : read_msg2_write_msg3 c (public_key er ++ enc₂) i₁ ≡ (i₂, ok enc₃)
    unfolding read_msg2_write_msg3 hs_init bind_ret
    message₃ =
        let long : ltb (length (public_key er ++ enc₂)) 80 ≡ false = ground (
          arith,
          length-append (public_key er) enc₂,
          length-public_key er,
          length-sealed_key ss₃.k ss₃.n ss₃.h sr,
        ) in
        let tail : drop 32 (public_key er ++ enc₂) ≡ enc₂ =
          drop-append (public_key er) enc₂ 32 (sym (length-public_key er)) in
        rw long (
          simp (
            key_whole er enc₂,
            tail,
            shared_comm ei er,
            shared_comm ei sr,
            sealed_alone,
            dh_mix-keyed,
            encrypt_static-at,
            decrypt_static-at,
            split_for-ciphers,
          ))

    message₄ : read_msg3 c enc₃ r₁ ≡ (r₂, ok tt)
    unfolding read_msg3 hs_init bind_ret
    message₄ =
        let long : ltb (length enc₃) 48 ≡ false =
          ground (arith, length-sealed_key ss₅.k ss₅.n ss₅.h si) in
        rw long (
          simp
            (shared_comm er si, sealed_alone, dh_mix-keyed, decrypt_static-at, split_for-ciphers))

    -- Where no library call fails, the handshake between an initiator and a responder, each
    -- started on its own static and ephemeral key, completes: all three messages are accepted and
    -- have 32, 80 and 48 bytes, both ends are then in transport, know the static key of the other,
    -- and hold the same two cipher states crosswise.
    pub handshake_agrees : Agreement c (start initiator si ei) (start responder sr er)
    unfolding hs_init
    handshake_agrees = record {
      msg1 = public_key ei;
      msg2 = public_key er ++ enc₂;
      msg3 = enc₃;
      i' = i₁;
      r' = r₁;
      i'' = i₂;
      r'' = r₂;
      sends_1 = message₁;
      answers_2 = message₂;
      answers_3 = message₃;
      finishes = message₄;
      size_1 = length-public_key ei;
      size_2 = omega (
        arith,
        length-append (public_key er) enc₂,
        length-public_key er,
        length-sealed_key ss₃.k ss₃.n ss₃.h sr,
      );
      size_3 = length-sealed_key ss₅.k ss₅.n ss₅.h si;
      i_waits = refl;
      r_waits = refl;
      i_done = refl;
      r_done = refl;
      i_knows = refl;
      r_knows = refl;
      i_to_r = refl;
      r_to_i = refl;
    }
