-- ===== src/Noise/Handshake/Transport.antt =====
-- Messages of a session in transport, where no library call fails.
use bitchat_meshtastic.Prelude.{ℕ, ◌+◌, ◌≡◌, refl, List, length}
use bitchat_meshtastic.Noise.Crypto.{Crypto, Honest}
use bitchat_meshtastic.Noise.Symmetric.{cs_encrypt, cs_decrypt}
use bitchat_meshtastic.Noise.Symmetric.Mirror.{cs_decrypt-cs_encrypt}
use bitchat_meshtastic.Noise.Handshake.{Handshake, transport, ok, hs_encrypt, hs_decrypt}

-- A text that `a` encrypts and `b` decrypts under the same associated data, and that leaves the
-- two ends ready for the next one.
pub record Delivery (c : Crypto) (a b : Handshake) (ad pt : List ℕ) : Type 0 where
  pub ct : List ℕ
  pub a' : Handshake
  pub b' : Handshake
  pub sent : hs_encrypt c ad pt a ≡ (a', ok ct)
  pub received : hs_decrypt c ad ct b ≡ (b', ok pt)
  pub size : length ct ≡ length pt + 16
  pub a_ready : a'.phase ≡ transport
  pub b_ready : b'.phase ≡ transport
  pub in_step : a'.send_cs ≡ b'.recv_cs
  pub a_keeps : a'.recv_cs ≡ a.recv_cs
  pub b_keeps : b'.send_cs ≡ b.send_cs

-- Where no library call fails, what one end of a session in transport encrypts, an end that holds
-- the same cipher state for receiving decrypts to the same text under the same associated data, the
-- ciphertext is 16 bytes longer; both stay in transport, the pair holds equal cipher states again,
-- and the other direction is untouched.
pub hs_decrypt-hs_encrypt :
    (c : Crypto) (good : Honest c) (a b : Handshake) (ad pt : List ℕ)
    → a.phase ≡ transport
    → b.phase ≡ transport
    → a.send_cs ≡ b.recv_cs
    → Delivery c a b ad pt
unfolding hs_encrypt hs_decrypt
hs_decrypt-hs_encrypt c good a b ad pt ha hb h =
    let (ct, e, d, n) = cs_decrypt-cs_encrypt c good a.send_cs ad pt in
    record {
      ct = ct;
      a' = record a { send_cs = (cs_encrypt c a.send_cs ad pt).0 };
      b' = record b { recv_cs = (cs_decrypt c b.recv_cs ad ct).0 };
      sent = rw (ha, e) refl;
      received = rw (hb, ← h, d) refl;
      size = n;
      a_ready = ha;
      b_ready = hb;
      in_step = rw (← h, e, d) refl;
      a_keeps = refl;
      b_keeps = refl;
    }
