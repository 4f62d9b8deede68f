-- ===== src/Ble/Incoming/Pending.antt =====
-- What an entry of the ring leaves to be processed.
use bitchat_meshtastic.Prelude.{
  ℕ, ◌+◌, ◌≤◌, ◌≡◌, refl, arith, ltb, ◌==◌, true, ◌&&◌, ◌||◌, Bool-cases, inl, inr, Option, none,
  some, List, [], length, get_or,
}
use bitchat_meshtastic.Proto.Field.{Slice, slice, negative}
use bitchat_meshtastic.Ble.Padding.{unpad_packet}
use bitchat_meshtastic.Ble.Fragments.{handle_fragment}
use bitchat_meshtastic.Ble.Fragments.Held.{held_bytes, whole_bytes, handle_fragment-Takes}
use bitchat_meshtastic.Ble.Queue.{RxEntry, RxQueue}
use bitchat_meshtastic.Ble.Queue.Fifo.{IsQueue}
use bitchat_meshtastic.Ble.Queue.Fifo.Weight.{IsGrown, IsGrown-refl, on_write-IsGrown}
use bitchat_meshtastic.Ble.Packet.{
  Packet, read_packet, Verdict, pass, drop_it, outside, check_signature,
}
use bitchat_meshtastic.Ble.Packet.Within.{
  IsWithin, IsRead, IsRead-le, unpad_packet-shorter, read_packet-IsRead,
}
use bitchat_meshtastic.Ble.Peers.{PeerSession, zero_peer, Effect}
use bitchat_meshtastic.Ble.Send.{Radio, send_announce}
use bitchat_meshtastic.Ble.Incoming.{
  BitchatBle, session_for, identified, clock_set, dispatch, with_peer, passed_on, after_dispatch,
  feed_reassembled, handle_fragment_in, handle_packet, checked, in_session, read_as, behind_clock,
  process_incoming,
}

-- What an entry of `size` bytes can do to the ring and the slots.
abbrev pub Does : ℕ → BitchatBle → Option (BitchatBle × List Effect) → Type 0
Does size st none = Unit {0}
Does size st (some (st', out)) =
    (n : ℕ) × IsGrown st.queue n st'.queue × (n + held_bytes st'.slots ≤ held_bytes st.slots + size)

Does-same :
    (size : ℕ) (st st' : BitchatBle) (out : List Effect)
    → IsQueue st.queue
    → st'.queue ≡ st.queue
    → st'.slots ≡ st.slots
    → Does size st (some (st', out))
Does-same size st st' out h q s = (0, rw q (IsGrown-refl st.queue h), rw s (omega arith))

feed_reassembled-IsGrown :
    (handle : ℕ) (whole : Option (List ℕ)) (q : RxQueue)
    → IsQueue q
    → IsGrown q (whole_bytes whole) (feed_reassembled handle whole q)
feed_reassembled-IsGrown handle none q h = IsGrown-refl q h
feed_reassembled-IsGrown handle (some bytes) q h =
    on_write-IsGrown (record { bytes = bytes; conn_handle = handle }) q h

module _ (r : Radio) where
  passed_on-same :
      (p : Packet) (pkt : List ℕ) (handle : ℕ) (st : BitchatBle)
      → ((passed_on r p pkt handle st).0.queue ≡ st.queue)
        × ((passed_on r p pkt handle st).0.slots ≡ st.slots)
  unfolding passed_on
  passed_on-same p pkt handle st =
      elim (Bool-cases (ltb 1 p.ttl && ((p.type == 1) || (p.type == 2)))) [
        | inl it ↦ rw it (refl, refl)
        | inr it ↦ rw it (refl, refl)
      ]

  module _ (size i handle : ℕ) (peer : PeerSession) (pkt : List ℕ) (st : BitchatBle)
      (ring : IsQueue st.queue) where
    after_dispatch-Does :
        (p : Packet) (m : Option (PeerSession × List Effect))
        → Does size st (after_dispatch r p pkt handle i st m)
    after_dispatch-Does p none = tt
    after_dispatch-Does p (some (peer', out)) =
        let (q, s) = passed_on-same p pkt handle (with_peer r i peer' st) in
        Does-same size st (passed_on r p pkt handle (with_peer r i peer' st)).0 [] ring q s

    fragment-Does :
        (payload : Slice)
        → IsWithin size payload
        → Does size st (some (handle_fragment_in r payload handle (with_peer r i peer st), []))
    unfolding handle_fragment_in IsWithin
    fragment-Does negative h = Does-same size st (with_peer r i peer st) [] ring refl refl
    fragment-Does (slice payload) h =
        let whole = (handle_fragment r.now handle payload st.slots).1 in
        (
          whole_bytes whole,
          feed_reassembled-IsGrown handle whole st.queue ring,
          omega (arith, h, handle_fragment-Takes r.now handle payload st.slots),
        )

    handle_packet-Does :
        (p : Packet)
        → IsWithin size p.payload
        → Does size st (handle_packet r p pkt handle i peer st)
    unfolding handle_packet send_announce
    handle_packet-Does p h = elim (Bool-cases (p.type == 0x20)) [
      | inl it ↦ simp it (fragment-Does p.payload h)
      | inr n1 ↦ elim (Bool-cases (p.type == 0x21)) [
        | inl it ↦
            simp (n1, it)
              (Does-same size st (with_peer r i (record peer { announce_sent = true }) st) [] ring
                refl refl)
        | inr n2 ↦ simp (n1, n2) (after_dispatch-Does p (dispatch r st.own p pkt peer))
      ]
    ]

    checked-Does :
        (p : Packet) (v : Verdict)
        → IsWithin size p.payload
        → Does size st (checked r p pkt handle i peer st v)
    checked-Does p outside h = tt
    checked-Does p drop_it h = Does-same size st (with_peer r i peer st) [] ring refl refl
    checked-Does p pass h = handle_packet-Does p h

  in_session-Does :
      (size handle : ℕ) (p : Packet) (pkt : List ℕ) (st : BitchatBle)
      (m : Option (ℕ × List PeerSession))
      → IsQueue st.queue
      → IsWithin size p.payload
      → Does size st (in_session r p pkt handle st m)
  in_session-Does size handle p pkt st none ring h = Does-same size st st [] ring refl refl
  in_session-Does size handle p pkt st (some (i, ps)) ring h =
      let peer = identified p.sender_id (get_or ps i zero_peer) in
      checked-Does size i handle peer pkt (record st { peers = ps }) ring p
        (check_signature r.signer p pkt peer.sign_pubkey) h

  read_as-Does :
      (size handle : ℕ) (pkt : List ℕ) (st : BitchatBle) (o : Option Packet)
      → IsQueue st.queue
      → IsRead size o
      → Does size st (read_as r pkt handle st o)
  read_as-Does size handle pkt st none ring h = Does-same size st st [] ring refl refl
  read_as-Does size handle pkt st (some p) ring h =
      in_session-Does size handle p pkt st (session_for r.now handle st.peers) ring h

  behind_clock-Does :
      (size : ℕ) (st : BitchatBle) (out : List Effect) (m : Option (BitchatBle × List Effect))
      → Does size st m
      → Does size st (behind_clock r out m)
  behind_clock-Does size st out none h = tt
  behind_clock-Does size st out (some (st', outs)) h = h

  pub process_incoming-Does :
      (entry : RxEntry) (st : BitchatBle)
      → IsQueue st.queue
      → Does (length entry.bytes) st (process_incoming r entry st)
  unfolding process_incoming
  process_incoming-Does entry st ring =
      let pkt = unpad_packet entry.bytes in
      behind_clock-Does (length entry.bytes) st (clock_set r pkt)
        (read_as r pkt entry.conn_handle st (read_packet pkt))
        (read_as-Does (length entry.bytes) entry.conn_handle pkt st (read_packet pkt) ring (
          IsRead-le (length pkt) (length entry.bytes) (read_packet pkt)
            (unpad_packet-shorter entry.bytes) (read_packet-IsRead pkt)))
