-- ===== src/Ble/Incoming/Table.antt =====
-- The table of sessions, whatever happens to it.
use mathlib.Core.Path.{subst}
use bitchat_meshtastic.Prelude.{true, take, Bool-cases, ltb, ◌==◌, ◌&&◌, ◌||◌, sym}
use bitchat_meshtastic.Prelude.{
  ℕ, zero, suc, ◌≡◌, ◌⊎◌, inl, inr, refl, sym, ◌∙◌, false, Option-cases, Option, none, some, List,
  [], ◌∷◌, length, get_or, set, length-set,
}
use bitchat_meshtastic.Ble.Peers.{PeerSession, zero_peer, new_peer, find_peer, Effect}
use bitchat_meshtastic.Ble.Peers.Slots.{
  HasNo, AreDistinct, AreFull, find_peer-HasNo, alloc_peer-Allocated,
}
use bitchat_meshtastic.Proto.Field.{Slice, slice, negative}
use bitchat_meshtastic.Ble.Packet.{Packet, Verdict, pass, drop_it, outside, check_signature}
use bitchat_meshtastic.Ble.Queue.{RxEntry}
use bitchat_meshtastic.Ble.Padding.{unpad_packet}
use bitchat_meshtastic.Ble.Packet.{read_packet}
use bitchat_meshtastic.Ble.Send.{Radio, Own, send_announce}
use bitchat_meshtastic.Ble.Handle.Keeps.{
  Keeps, KeepsIn, handle_announce-Keeps, handle_noise_handshake-KeepsIn, handle_encrypted-KeepsIn,
}
use bitchat_meshtastic.Ble.Incoming.{
  BitchatBle, session_for, identified, clock_set, dispatch, with_peer, passed_on, after_dispatch,
  handle_fragment_in, handle_packet, checked, in_session, read_as, behind_clock, process_incoming,
}

-- A packet finds a session of its connection, in a table that still has one session for each, or the table is full
-- and stays as it is.
pub session_for-AreDistinct :
    (now handle : ℕ) (ps : List PeerSession)
    → AreDistinct ps
    → ((session_for now handle ps ≡ none) × AreFull ps)
      ⊎ ((i : ℕ) × (ps' : List PeerSession) × (session_for now handle ps ≡ some (i, ps'))
          × AreDistinct ps'
          × (length ps' ≡ length ps)
          × (find_peer handle ps' ≡ some i))
unfolding session_for
session_for-AreDistinct now handle ps d = elim (Option-cases (find_peer handle ps)) [
  | inr (i, known) ↦ inr (i, ps, rw (known, session_for) refl, d, refl, known)
  | inl unknown ↦
      elim (alloc_peer-Allocated (new_peer now handle none false) ps refl
        (find_peer-HasNo handle ps unknown) d) [
          | inl (full, all) ↦ inl (rw (unknown, session_for) full, all)
          | inr (i, ps', at, d', same, found, others) ↦
              inr (i, ps', rw (unknown, session_for) at, d', same, found)
        ]
]

-- Four slots, and no two active sessions have one handle.
abbrev pub IsTable : List PeerSession → Type 0
IsTable ps = AreDistinct ps × (length ps ≡ 4)

set-HasNo :
    (handle i : ℕ) (p : PeerSession) (ps : List PeerSession)
    → p.active ≡ (get_or ps i zero_peer).active
    → p.conn_handle ≡ (get_or ps i zero_peer).conn_handle
    → HasNo handle ps
    → HasNo handle (set ps i p)
set-HasNo handle i p [] ha hc h = tt
set-HasNo handle zero p (q ∷ ps) ha hc (h, hs) = (rw (ha, hc) h, hs)
set-HasNo handle (suc i) p (q ∷ ps) ha hc (h, hs) = (h, set-HasNo handle i p ps ha hc hs)

pub set-AreDistinct :
    (i : ℕ) (p : PeerSession) (ps : List PeerSession)
    → p.active ≡ (get_or ps i zero_peer).active
    → p.conn_handle ≡ (get_or ps i zero_peer).conn_handle
    → AreDistinct ps
    → AreDistinct (set ps i p)
set-AreDistinct i p [] ha hc d = tt
set-AreDistinct zero p (q ∷ ps) ha hc (d, ds) =
    (λ live. subst (λ k. HasNo k ps) (sym hc) (d (sym ha ∙ live)), ds)
set-AreDistinct (suc i) p (q ∷ ps) ha hc (d, ds) =
    (λ live. set-HasNo q.conn_handle i p ps ha hc (d live), set-AreDistinct i p ps ha hc ds)

-- A result that is no fault has a table.
abbrev pub HasTable : Option (BitchatBle × List Effect) → Type 0
HasTable none = Unit {0}
HasTable (some (st, out)) = IsTable st.peers

module _ (r : Radio) where
  dispatch-KeepsIn :
      (o : Own) (p : Packet) (pkt : List ℕ) (peer : PeerSession)
      → KeepsIn peer (dispatch r o p pkt peer)
  unfolding dispatch
  dispatch-KeepsIn o p pkt peer = elim (Bool-cases (p.type == 1)) [
    | inl it ↦ simp it (handle_announce-Keeps r o peer p.payload)
    | inr n1 ↦ elim (Bool-cases (p.type == 2)) [
      | inl it ↦ simp (n1, it) (refl, refl)
      | inr n2 ↦ elim (Bool-cases (p.type == 0x10)) [
        | inl it ↦ simp (n1, n2, it) (handle_noise_handshake-KeepsIn r o peer p.payload)
        | inr n3 ↦ elim (Bool-cases (p.type == 0x11)) [
          | inl it ↦
              simp (n1, n2, n3, it)
                (handle_encrypted-KeepsIn r o peer (take p.header_len pkt) p.payload)
          | inr n4 ↦ simp (n1, n2, n3, n4) (refl, refl)
        ]
      ]
    ]
  ]

  passed_on-peers :
      (p : Packet) (pkt : List ℕ) (handle : ℕ) (st : BitchatBle)
      → (passed_on r p pkt handle st).0.peers ≡ st.peers
  unfolding passed_on
  passed_on-peers p pkt handle st =
      elim (Bool-cases (ltb 1 p.ttl && ((p.type == 1) || (p.type == 2)))) [
        | inl it ↦ rw it refl
        | inr it ↦ rw it refl
      ]

  -- A session that a handler gives back takes the place of the one that it was given.
  module _ (i : ℕ) (peer : PeerSession) (st : BitchatBle) (table : IsTable st.peers)
      (place : Keeps (get_or st.peers i zero_peer) peer) where
    replaced : (peer' : PeerSession) → Keeps peer peer' → IsTable (set st.peers i peer')
    replaced peer' keeps = (
      set-AreDistinct i peer' st.peers (keeps.0 ∙ place.0) (keeps.1 ∙ place.1) table.0,
      length-set st.peers i peer' ∙ table.1,
    )

    after_dispatch-HasTable :
        (p : Packet) (pkt : List ℕ) (handle : ℕ) (m : Option (PeerSession × List Effect))
        → KeepsIn peer m
        → HasTable (after_dispatch r p pkt handle i st m)
    after_dispatch-HasTable p pkt handle none k = tt
    after_dispatch-HasTable p pkt handle (some (peer', out)) k =
        subst IsTable (sym (passed_on-peers p pkt handle (with_peer r i peer' st)))
          (replaced peer' k)

    fragment :
        (s : Slice) (handle : ℕ)
        → IsTable (handle_fragment_in r s handle (with_peer r i peer st)).peers
    unfolding handle_fragment_in
    fragment negative handle = replaced peer (refl, refl)
    fragment (slice payload) handle = replaced peer (refl, refl)

    handle_packet-HasTable :
        (p : Packet) (pkt : List ℕ) (handle : ℕ) → HasTable (handle_packet r p pkt handle i peer st)
    unfolding handle_packet send_announce
    handle_packet-HasTable p pkt handle = elim (Bool-cases (p.type == 0x20)) [
      | inl it ↦ simp it (fragment p.payload handle)
      | inr n1 ↦ elim (Bool-cases (p.type == 0x21)) [
        | inl it ↦ simp (n1, it) (replaced (record peer { announce_sent = true }) (refl, refl))
        | inr n2 ↦
            simp (n1, n2)
              (after_dispatch-HasTable p pkt handle (dispatch r st.own p pkt peer)
                (dispatch-KeepsIn st.own p pkt peer))
      ]
    ]

    checked-HasTable :
        (p : Packet) (pkt : List ℕ) (handle : ℕ) (v : Verdict)
        → HasTable (checked r p pkt handle i peer st v)
    checked-HasTable p pkt handle outside = tt
    checked-HasTable p pkt handle drop_it = replaced peer (refl, refl)
    checked-HasTable p pkt handle pass = handle_packet-HasTable p pkt handle

  in_session-HasTable :
      (p : Packet) (pkt : List ℕ) (handle : ℕ) (st : BitchatBle) (i : ℕ) (ps : List PeerSession)
      → IsTable ps
      → HasTable (in_session r p pkt handle st (some (i, ps)))
  in_session-HasTable p pkt handle st i ps table =
      let peer = identified p.sender_id (get_or ps i zero_peer) in
      checked-HasTable i peer (record st { peers = ps }) table (refl, refl) p pkt handle
        (check_signature r.signer p pkt peer.sign_pubkey)

  read_as-HasTable :
      (pkt : List ℕ) (handle : ℕ) (st : BitchatBle) (o : Option Packet)
      → IsTable st.peers
      → HasTable (read_as r pkt handle st o)
  read_as-HasTable pkt handle st none table = table
  read_as-HasTable pkt handle st (some p) table =
      elim (session_for-AreDistinct r.now handle st.peers table.0) [
        | inl (full, all) ↦ subst (λ o. HasTable (in_session r p pkt handle st o)) (sym full) table
        | inr (i, ps, at, d, same, found) ↦
            subst (λ o. HasTable (in_session r p pkt handle st o)) (sym at)
              (in_session-HasTable p pkt handle st i ps (d, same ∙ table.1))
      ]

  behind_clock-HasTable :
      (out : List Effect) (m : Option (BitchatBle × List Effect))
      → HasTable m
      → HasTable (behind_clock r out m)
  behind_clock-HasTable out none h = tt
  behind_clock-HasTable out (some (st, outs)) h = h

  pub process_incoming-HasTable :
      (entry : RxEntry) (st : BitchatBle)
      → IsTable st.peers
      → HasTable (process_incoming r entry st)
  unfolding process_incoming
  process_incoming-HasTable entry st table =
      let pkt = unpad_packet entry.bytes in
      behind_clock-HasTable (clock_set r pkt) (read_as r pkt entry.conn_handle st (read_packet pkt))
        (read_as-HasTable pkt entry.conn_handle st (read_packet pkt) table)
