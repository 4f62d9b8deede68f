-- ===== src/Ble/Handle/Session.antt =====
-- Two sessions, from an announcement to transport.
use bitchat_meshtastic.Prelude.{sym, Option, ℕ, ◌≡◌, refl, ap, ◌∙◌, some, List, []}
use bitchat_meshtastic.Noise.Crypto.{Crypto, Honest}
use bitchat_meshtastic.Noise.Handshake.{
  Handshake, Role, idle, await_msg2, await_msg3, transport, initiator, responder, ok, hs_init,
  write_msg1, read_msg1_write_msg2, read_msg2_write_msg3, read_msg3,
}
use bitchat_meshtastic.Noise.Handshake.Run.{start, handshake_agrees}
use bitchat_meshtastic.Proto.Field.{slice}
use bitchat_meshtastic.Ble.Peers.{PeerSession}
use bitchat_meshtastic.Ble.Send.{Radio, Own, send_handshake_packet}
use bitchat_meshtastic.Ble.Handle.{
  begun, sent_msg1, begin_handshake, answered, responded, handshake_step, handle_noise_handshake,
}

-- What the two ends do with the three messages, from `p` at `a` and `q` at `b` on.
pub record Meeting (a b : Radio) (oa ob : Own) (p q : PeerSession) : Type 0 where
  pub msg1 : List ℕ
  pub msg2 : List ℕ
  pub msg3 : List ℕ
  pub i : Handshake
  pub i' : Handshake
  pub r : Handshake
  pub r' : Handshake
  pub begins :
      begin_handshake a oa p
      ≡ (record p { hs = i }, send_handshake_packet a oa (record p { hs = i }) msg1)
  pub responds :
      handle_noise_handshake b ob q (slice msg1)
      ≡ some (record q { hs = r }, send_handshake_packet b ob (record q { hs = r }) msg2)
  pub answers :
      handle_noise_handshake a oa (record p { hs = i }) (slice msg2)
      ≡ some (record p { hs = i' }, send_handshake_packet a oa (record p { hs = i' }) msg3)
  pub finishes :
      handle_noise_handshake b ob (record q { hs = r }) (slice msg3)
      ≡ some (record q { hs = r' }, [])
  pub a_done : i'.phase ≡ transport
  pub b_done : r'.phase ≡ transport
  pub a_knows : i'.rs_pub ≡ ob.keypair.noise_public
  pub b_knows : r'.rs_pub ≡ oa.keypair.noise_public
  pub a_to_b : i'.send_cs ≡ r'.recv_cs
  pub b_to_a : i'.recv_cs ≡ r'.send_cs

hs_init-start :
    (c d : Crypto) (good : Honest c) (role : Role) (priv pub' s e : List ℕ)
    (drawn : Option (List ℕ × List ℕ))
    → d ≡ c
    → priv ≡ s
    → pub' ≡ good.public_key s
    → drawn ≡ some (e, good.public_key e)
    → hs_init d role priv pub' drawn ≡ (start c good role s e, ok tt)
unfolding hs_init
hs_init-start c d good role priv pub' s e drawn same private mine drawn_is =
    rw (same, private, mine, drawn_is) refl

-- An end with the key pair of `s`, that draws the one of `e`.
module _ (c : Crypto) (good : Honest c) (r : Radio) (o : Own) (same : r.crypto ≡ c)
    (p : PeerSession) (s e : List ℕ) (private : o.keypair.noise_private ≡ s)
    (mine : o.keypair.noise_public ≡ good.public_key s)
    (drawn : r.ephemeral p.conn_handle ≡ some (e, good.public_key e)) where
  begun_as :
      (role : Role)
      → hs_init r.crypto role o.keypair.noise_private o.keypair.noise_public
          (r.ephemeral p.conn_handle)
        ≡ (start c good role s e, ok tt)
  begun_as role =
      hs_init-start c r.crypto good role o.keypair.noise_private o.keypair.noise_public s e
        (r.ephemeral p.conn_handle) same private mine drawn

  begin_handshake-sent :
      (hs : Handshake) (msg1 : List ℕ)
      → write_msg1 c (start c good initiator s e) ≡ (hs, ok msg1)
      → begin_handshake r o p
        ≡ (record p { hs = hs }, send_handshake_packet r o (record p { hs = hs }) msg1)
  unfolding begin_handshake
  begin_handshake-sent hs msg1 sent =
      ap (begun r o p) (begun_as initiator)
      ∙ ap (λ k. sent_msg1 r o p (write_msg1 k (start c good initiator s e))) same
      ∙ ap (sent_msg1 r o p) sent

  handle_noise_handshake-first :
      (hs : Handshake) (msg1 msg2 : List ℕ)
      → p.hs.phase ≡ idle
      → read_msg1_write_msg2 c msg1 (start c good responder s e) ≡ (hs, ok msg2)
      → handle_noise_handshake r o p (slice msg1)
        ≡ some (record p { hs = hs }, send_handshake_packet r o (record p { hs = hs }) msg2)
  unfolding handle_noise_handshake handshake_step
  handle_noise_handshake-first hs msg1 msg2 fresh sent =
      ap (λ k. some (handshake_step r o k p msg1)) fresh
      ∙ ap (λ m. some (responded r o p msg1 m)) (begun_as responder)
      ∙ ap (λ k. some (answered r o p (read_msg1_write_msg2 k msg1 (start c good responder s e))))
          same
      ∙ ap (λ m. some (answered r o p m)) sent

module _ (r : Radio) (o : Own) (p : PeerSession) where
  handle_noise_handshake-second :
      (hs : Handshake) (msg2 msg3 : List ℕ)
      → p.hs.phase ≡ await_msg2
      → read_msg2_write_msg3 r.crypto msg2 p.hs ≡ (hs, ok msg3)
      → handle_noise_handshake r o p (slice msg2)
        ≡ some (record p { hs = hs }, send_handshake_packet r o (record p { hs = hs }) msg3)
  unfolding handle_noise_handshake handshake_step
  handle_noise_handshake-second hs msg2 msg3 waits sent =
      ap (λ k. some (handshake_step r o k p msg2)) waits ∙ ap (λ m. some (answered r o p m)) sent

  handle_noise_handshake-third :
      (hs : Handshake) (msg3 : List ℕ)
      → p.hs.phase ≡ await_msg3
      → read_msg3 r.crypto msg3 p.hs ≡ (hs, ok tt)
      → handle_noise_handshake r o p (slice msg3) ≡ some (record p { hs = hs }, [])
  unfolding handle_noise_handshake handshake_step
  handle_noise_handshake-third hs msg3 waits sent =
      ap (λ k. some (handshake_step r o k p msg3)) waits
      ∙ ap (λ m. some (record p { hs = m.0 }, [])) sent

module _ (a b : Radio) (oa ob : Own) (good : Honest a.crypto) (same : b.crypto ≡ a.crypto) where
  open good use {public_key}

  -- The two bridges have key pairs of their own, and each draws an ephemeral one for the connection. Where no call of
  -- the library fails, the handshake that `p` at the central begins passes the handlers of both ends: each of
  -- its three messages is answered with the next, nothing faults, and both sessions are then in transport,
  -- know the static key of the other end and hold the same ciphers crosswise.
  pub sessions_meet :
      (p q : PeerSession) (sa ea sb eb : List ℕ)
      → oa.keypair.noise_public ≡ public_key sa
      → oa.keypair.noise_private ≡ sa
      → ob.keypair.noise_public ≡ public_key sb
      → ob.keypair.noise_private ≡ sb
      → a.ephemeral p.conn_handle ≡ some (ea, public_key ea)
      → b.ephemeral q.conn_handle ≡ some (eb, public_key eb)
      → q.hs.phase ≡ idle
      → Meeting a b oa ob p q
  unfolding hs_init
  sessions_meet p q sa ea sb eb pub_a priv_a pub_b priv_b drawn_a drawn_b fresh =
      let run = handshake_agrees a.crypto good sa ea sb eb in
      record {
        msg1 = run.msg1;
        msg2 = run.msg2;
        msg3 = run.msg3;
        i = run.i';
        i' = run.i'';
        r = run.r';
        r' = run.r'';
        begins =
            begin_handshake-sent a.crypto good a oa refl p sa ea priv_a pub_a drawn_a run.i'
              run.msg1 run.sends_1;
        responds =
            handle_noise_handshake-first a.crypto good b ob same q sb eb priv_b pub_b drawn_b run.r'
              run.msg1 run.msg2 fresh run.answers_2;
        answers =
            handle_noise_handshake-second a oa (record p { hs = run.i' }) run.i'' run.msg2 run.msg3
              run.i_waits run.answers_3;
        finishes =
            handle_noise_handshake-third b ob (record q { hs = run.r' }) run.r'' run.msg3
              run.r_waits (ap (λ c. read_msg3 c run.msg3 run.r') same ∙ run.finishes);
        a_done = run.i_done;
        b_done = run.r_done;
        a_knows = run.i_knows ∙ sym pub_b;
        b_knows = run.r_knows ∙ sym pub_a;
        a_to_b = run.i_to_r;
        b_to_a = run.r_to_i;
      }
