-- ===== src/Ble/Incoming/Checks.antt =====
-- What the checks of `_process_incoming` keep out.
use bitchat_meshtastic.Prelude.{
  ℕ, ◌-◌, ◌≤◌, ◌≡◌, ◌≢◌, refl, ap, ◌∙◌, arith, ltb, ==-of_ne, true, false, some, List, [], ◌++◌,
  length, get_or, take, drop,
}
use bitchat_meshtastic.Ble.Padding.{unpad_packet}
use bitchat_meshtastic.Ble.Queue.{RxEntry}
use bitchat_meshtastic.Ble.Packet.{Packet, read_packet, has_flag, Verdict, drop_it, check_signature}
use bitchat_meshtastic.Ble.Peers.{PeerSession, zero_peer, find_peer}
use bitchat_meshtastic.Ble.Send.{Radio}
use bitchat_meshtastic.Ble.Incoming.{
  BitchatBle, session_for, identified, clock_set, with_peer, checked, in_session, read_as,
  behind_clock, process_incoming,
}

pub session_for-known :
    (now handle : ℕ) (peers : List PeerSession) (i : ℕ)
    → find_peer handle peers ≡ some i
    → session_for now handle peers ≡ some (i, peers)
unfolding session_for
session_for-known now handle peers i known = rw (known, session_for) refl

-- A packet of a peer whose session is the i-th.
pub process_incoming-checked :
    (r : Radio) (entry : RxEntry) (st : BitchatBle) (pkt : List ℕ) (p : Packet) (i : ℕ)
    (v : Verdict)
    → unpad_packet entry.bytes ≡ pkt
    → read_packet pkt ≡ some p
    → find_peer entry.conn_handle st.peers ≡ some i
    → check_signature r.signer p pkt (get_or st.peers i zero_peer).sign_pubkey ≡ v
    → process_incoming r entry st
      ≡ behind_clock r (clock_set r pkt) (
          checked r p pkt entry.conn_handle i
            (identified p.sender_id (get_or st.peers i zero_peer))
            st
            v)
unfolding process_incoming
process_incoming-checked r entry st pkt p i v unpadded readable known verdict =
    let h = entry.conn_handle in
    let peer = identified p.sender_id (get_or st.peers i zero_peer) in
    rw unpadded (
      ap (λ o. behind_clock r (clock_set r pkt) (read_as r pkt h st o)) readable
      ∙ ap (λ o. behind_clock r (clock_set r pkt) (in_session r p pkt h st o))
          (session_for-known r.now h st.peers i known)
      ∙ ap (λ o. behind_clock r (clock_set r pkt) (checked r p pkt h i peer st o)) verdict)

-- A packet of the i-th session that says it is signed, has its signature, is no announcement, and whose
-- signature is not valid for the key that the peer announced, has no effect but that the clock may be set, and
-- changes nothing but that the sender's ID is kept where none was known.
pub invalid_signature-dropped :
    (r : Radio) (entry : RxEntry) (st : BitchatBle) (pkt : List ℕ) (p : Packet) (i : ℕ)
    (key : List ℕ)
    → unpad_packet entry.bytes ≡ pkt
    → read_packet pkt ≡ some p
    → find_peer entry.conn_handle st.peers ≡ some i
    → (get_or st.peers i zero_peer).sign_pubkey ≡ some key
    → p.type ≢ 1
    → has_flag p.flags 2 ≡ true
    → 64 ≤ length pkt
    → r.signer.verify (drop (length pkt - 64) pkt) (take (length pkt - 64) pkt) key ≡ false
    → process_incoming r entry st
      ≡ some (
        with_peer r i (identified p.sender_id (get_or st.peers i zero_peer)) st,
        clock_set r pkt ++ [],
      )
invalid_signature-dropped r entry st pkt p i key unpadded readable known stored ty signed long bad =
    process_incoming-checked r entry st pkt p i drop_it unpadded readable known
      (rw stored (verdict r p pkt key ty signed long bad))
  where
    verdict :
        (r : Radio) (p : Packet) (pkt key : List ℕ)
        → p.type ≢ 1
        → has_flag p.flags 2 ≡ true
        → 64 ≤ length pkt
        → r.signer.verify (drop (length pkt - 64) pkt) (take (length pkt - 64) pkt) key ≡ false
        → check_signature r.signer p pkt (some key) ≡ drop_it
    verdict r p pkt key ty signed long bad =
        let here : ltb (length pkt) 64 ≡ false = ground arith in
        unfold check_signature in rw (==-of_ne p.type 1 ty, signed, here, bad) (ground arith)
