-- ===== src/Ble/Handle/Keeps.antt =====
-- The handlers leave the handle of a session and its use alone.
use bitchat_meshtastic.Prelude.{
  ℕ, ◌≡◌, refl, ◌∙◌, ltb, ◌==◌, false, not, ◌&&◌, Bool-cases, inl, inr, Option, none, some, List,
  [], ◌∷◌, length, take, is_empty,
}
use bitchat_meshtastic.Proto.Field.{Slice, slice, negative}
use bitchat_meshtastic.Noise.Handshake.{
  Handshake, Phase, idle, await_msg2, await_msg3, transport, failed, Ret, ok, err, is_idle,
  is_transport, hs_init, initiator, write_msg1, read_msg1_write_msg2, read_msg2_write_msg3,
  hs_encrypt, hs_decrypt,
}
use bitchat_meshtastic.Ble.Tlv.{tlv_encode, tlv_find}
use bitchat_meshtastic.Ble.Peers.{PeerSession, Effect, on_message}
use bitchat_meshtastic.Ble.Send.{
  Radio, Own, send_announce, send_sealed, encrypted_header, private_message, send_encrypted,
  send_text_to,
}
use bitchat_meshtastic.Ble.Handle.{
  value_or_empty, message_from, display_name_of, peer_id_of, sent_msg1, begun, begin_handshake,
  announced, answer_announce, handle_announce, answered, responded, handshake_step, reads_payload,
  handle_noise_handshake, send_receipt, behind, handle_private, handle_plaintext, decrypted,
  handle_encrypted,
}

abbrev pub Keeps : PeerSession → PeerSession → Type 0
Keeps p p' = (p'.active ≡ p.active) × (p'.conn_handle ≡ p.conn_handle)

Keeps-trans : (p q r : PeerSession) → Keeps p q → Keeps q r → Keeps p r
Keeps-trans p q r (a, b) (c, d) = (c ∙ a, d ∙ b)

-- A result that is no fault.
abbrev pub KeepsIn : PeerSession → Option (PeerSession × List Effect) → Type 0
KeepsIn p none = Unit {0}
KeepsIn p (some (p', out)) = Keeps p p'

module _ (r : Radio) (o : Own) (p : PeerSession) where
  sent_msg1-Keeps : (m : Handshake × Ret (List ℕ)) → Keeps p (sent_msg1 r o p m).0
  sent_msg1-Keeps (hs, ok out) = (refl, refl)
  sent_msg1-Keeps (hs, err e) = (refl, refl)

  begun-Keeps : (m : Handshake × Ret (Unit {0})) → Keeps p (begun r o p m).0
  begun-Keeps (hs, ok u) = sent_msg1-Keeps (write_msg1 r.crypto hs)
  begun-Keeps (hs, err e) = (refl, refl)

  answered-Keeps : (m : Handshake × Ret (List ℕ)) → Keeps p (answered r o p m).0
  answered-Keeps (hs, ok out) = (refl, refl)
  answered-Keeps (hs, err e) = (refl, refl)

  responded-Keeps :
      (payload : List ℕ) (m : Handshake × Ret (Unit {0})) → Keeps p (responded r o p payload m).0
  responded-Keeps payload (hs, ok u) = answered-Keeps (read_msg1_write_msg2 r.crypto payload hs)
  responded-Keeps payload (hs, err e) = (refl, refl)

  handshake_step-Keeps :
      (phase : Phase) (payload : List ℕ) → Keeps p (handshake_step r o phase p payload).0
  unfolding handshake_step
  handshake_step-Keeps idle payload = responded-Keeps payload _
  handshake_step-Keeps await_msg2 payload =
      answered-Keeps (read_msg2_write_msg3 r.crypto payload p.hs)
  handshake_step-Keeps await_msg3 payload = (refl, refl)
  handshake_step-Keeps transport payload = (refl, refl)
  handshake_step-Keeps failed payload = (refl, refl)

  pub handle_noise_handshake-KeepsIn : (s : Slice) → KeepsIn p (handle_noise_handshake r o p s)
  unfolding handle_noise_handshake
  handle_noise_handshake-KeepsIn (slice payload) = handshake_step-Keeps p.hs.phase payload
  handle_noise_handshake-KeepsIn negative =
      elim (Bool-cases (reads_payload r o p.hs.phase (r.ephemeral p.conn_handle))) [
        | inl yes' ↦ rw yes' tt
        | inr no' ↦ rw no' (handshake_step-Keeps p.hs.phase [])
      ]

  answer_announce-Keeps : Keeps p (answer_announce r o p).0
  unfolding answer_announce send_announce
  answer_announce-Keeps = elim (Bool-cases p.announce_sent) [
    | inl sent ↦ simp sent (refl, refl)
    | inr unsent ↦ simp unsent (refl, refl)
  ]

  send_sealed-Keeps : (n : ℕ) (m : Handshake × Ret (List ℕ)) → Keeps p (send_sealed r o p n m).0
  send_sealed-Keeps n (hs, ok ct) = (refl, refl)
  send_sealed-Keeps n (hs, err e) = (refl, refl)

  pub send_encrypted-Keeps :
      (type : ℕ) (inner : List ℕ) → Keeps p (send_encrypted r o p type inner).0
  unfolding send_encrypted
  send_encrypted-Keeps type inner = elim (Bool-cases (ltb 512 (length (type ∷ inner)))) [
    | inl long ↦ rw long (refl, refl)
    | inr short ↦ rw short (
        send_sealed-Keeps (length (type ∷ inner))
          (hs_encrypt r.crypto (encrypted_header r o (length (type ∷ inner))) (type ∷ inner) p.hs))
  ]

  pub send_text_to-Keeps : (text : List ℕ) → Keeps p (send_text_to r o text p).0
  unfolding send_text_to
  send_text_to-Keeps text = elim (Bool-cases p.active) [
    | inr idle' ↦ simp idle' (refl, refl)
    | inl live ↦
        let used : not p.active ≡ false = rw live refl in
        elim (Bool-cases (is_transport p.hs.phase)) [
          | inl session ↦
              rw (used, session)
                (send_encrypted-Keeps 1
                  (private_message r o (take 16 (r.message_id p.conn_handle)) text))
          | inr none_yet ↦ rw (used, none_yet) (refl, refl)
        ]
  ]

  begin_handshake-Keeps : Keeps p (begin_handshake r o p).0
  unfolding begin_handshake
  begin_handshake-Keeps = begun-Keeps (
      hs_init r.crypto initiator o.keypair.noise_private o.keypair.noise_public
        (r.ephemeral p.conn_handle))

  send_receipt-KeepsIn : (id : List ℕ) → KeepsIn p (send_receipt r o id p)
  unfolding send_receipt
  send_receipt-KeepsIn id = elim (Bool-cases (is_empty id)) [
    | inl nothing ↦ rw nothing (refl, refl)
    | inr some' ↦ elim (Bool-cases (ltb 20 (length (tlv_encode 0 id)))) [
      | inl long ↦ rw (some', long) tt
      | inr short ↦ rw (some', short) (send_encrypted-Keeps 3 (tlv_encode 0 id))
    ]
  ]

  behind-KeepsIn :
      (out : List Effect) (m : Option (PeerSession × List Effect))
      → KeepsIn p m
      → KeepsIn p (behind r o out m)
  behind-KeepsIn out none h = tt
  behind-KeepsIn out (some (p', outs)) h = h

  handle_private-KeepsIn : (inner : List ℕ) → KeepsIn p (handle_private r o p inner)
  unfolding handle_private
  handle_private-KeepsIn inner = elim (Bool-cases (is_empty (value_or_empty (tlv_find inner 1)))) [
    | inl nothing ↦ rw nothing (refl, refl)
    | inr text ↦ rw text (
        behind-KeepsIn
          (on_message (
              message_from r.now (peer_id_of r o p)
                (display_name_of p.nickname none (peer_id_of r o p))
                (value_or_empty (tlv_find inner 1)))
            ∷ [])
          (send_receipt r o (value_or_empty (tlv_find inner 0)) p)
          (send_receipt-KeepsIn (value_or_empty (tlv_find inner 0))))
  ]

  handle_plaintext-KeepsIn : (pt : List ℕ) → KeepsIn p (handle_plaintext r o p pt)
  unfolding handle_plaintext
  handle_plaintext-KeepsIn [] = (refl, refl)
  handle_plaintext-KeepsIn (type ∷ inner) =
      elim (Bool-cases ((type == 1) && not (is_empty inner))) [
        | inl private' ↦ rw private' (handle_private-KeepsIn inner)
        | inr other ↦ rw other (refl, refl)
      ]

module _ (r : Radio) (o : Own) where
  pub handle_announce-Keeps : (p : PeerSession) (s : Slice) → Keeps p (handle_announce r o p s).0
  unfolding handle_announce announced
  handle_announce-Keeps p s =
      let p0 = announced r o s p in
      let p1 = (answer_announce r o p0).0 in
      let k1 : Keeps p0 p1 = answer_announce-Keeps r o p0 in
      elim (Bool-cases (p1.we_are_central && is_idle p1.hs.phase)) [
        | inl begins ↦
            rw begins
              (Keeps-trans p0 p1 (begin_handshake r o p1).0 k1 (begin_handshake-Keeps r o p1))
        | inr waits ↦ rw waits k1
      ]

  decrypted-KeepsIn :
      (p : PeerSession) (m : Handshake × Ret (List ℕ)) → KeepsIn p (decrypted r o p m)
  decrypted-KeepsIn p (hs, ok pt) = handle_plaintext-KeepsIn r o (record p { hs = hs }) pt
  decrypted-KeepsIn p (hs, err e) = (refl, refl)

  pub handle_encrypted-KeepsIn :
      (p : PeerSession) (header : List ℕ) (s : Slice) → KeepsIn p (handle_encrypted r o p header s)
  unfolding handle_encrypted
  handle_encrypted-KeepsIn p header (slice ct) = elim (Bool-cases (is_transport p.hs.phase)) [
    | inl session ↦ simp session (decrypted-KeepsIn p (hs_decrypt r.crypto header ct p.hs))
    | inr none_yet ↦ simp none_yet (refl, refl)
  ]
  handle_encrypted-KeepsIn p header negative = elim (Bool-cases (is_transport p.hs.phase)) [
    | inl session ↦ simp session tt
    | inr none_yet ↦ simp none_yet (refl, refl)
  ]
