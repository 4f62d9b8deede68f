-- ===== src/Ble/Incoming.antt =====
-- `_process_incoming` of src/bitchat/bitchat_ble.cpp, on the state of the class.
pub mod Pending
pub mod Checks
pub mod Table
pub mod Message
pub mod Unsigned
pub mod Signed
pub mod Altered
pub mod Negative
use bitchat_meshtastic.Prelude.{
  ℕ, ◌+◌, ◌%◌, ltb, leb, ◌==◌, if◌then◌else◌, Bool, true, false, not, ◌&&◌, ◌||◌, Option, none,
  some, List, [], ◌∷◌, ◌++◌, length, get_or, set, take,
}
use bitchat_meshtastic.Config.{
  bitchat_pkt_announce, bitchat_pkt_message, bitchat_pkt_noise_handshake,
  bitchat_pkt_noise_encrypted, bitchat_pkt_fragment, bitchat_pkt_request_sync,
}
use bitchat_meshtastic.Clock.{time_sync_from_epoch}
use bitchat_meshtastic.Proto.Field.{Slice, slice, negative}
use bitchat_meshtastic.Ble.Padding.{unpad_packet}
use bitchat_meshtastic.Ble.Fragments.{FragReassembly, handle_fragment}
use bitchat_meshtastic.Ble.Queue.{RxEntry, RxQueue, on_write}
use bitchat_meshtastic.Ble.Relay.{Relay, relay_packet}
use bitchat_meshtastic.Ble.Packet.{
  Packet, read_packet, packet_seconds, Verdict, pass, drop_it, outside, check_signature,
}
use bitchat_meshtastic.Ble.Peers.{
  PeerSession, zero_peer, find_peer, new_peer, alloc_peer, Effect, set_time,
}
use bitchat_meshtastic.Ble.Send.{Radio, Own, send_to_peer, send_announce}
use bitchat_meshtastic.Ble.Handle.{
  handle_announce, handle_message, handle_noise_handshake, handle_encrypted,
}

pub record BitchatBle : Type 0 where
  pub active : Bool
  pub own : Own
  pub peers : List PeerSession
  pub queue : RxQueue
  pub relay : Relay
  pub slots : List FragReassembly
  pub scanning : Bool
  pub last_scan_ms : ℕ
  pub last_announce_ms : ℕ

-- The session of the connection, a new one where there is none: its index, and the sessions.
unfoldable pub session_for : ℕ → ℕ → List PeerSession → Option (ℕ × List PeerSession)
session_for now handle peers = elim (find_peer handle peers) [
  | some i ↦ some (i, peers)
  | none ↦ alloc_peer (new_peer now handle none false) peers
]

-- The sender of the first packet is the peer.
abbrev pub identified : List ℕ → PeerSession → PeerSession
identified sender_id p = record p {
  peer_id = some (elim p.peer_id [ none ↦ sender_id | some id ↦ id ]);
}

-- A packet that was reassembled enters the ring.
abbrev feed_reassembled : ℕ → Option (List ℕ) → RxQueue → RxQueue
feed_reassembled handle none q = q
feed_reassembled handle (some bytes) q = on_write (record { bytes = bytes; conn_handle = handle }) q

module _ (r : Radio) where
  abbrev pub clock_set : List ℕ → List Effect
  clock_set pkt =
      let seconds = packet_seconds pkt in
      if ltb 0 seconds
      then (elim (time_sync_from_epoch r.clock seconds) [ none ↦ [] | some s ↦ set_time s ∷ [] ])
      else []

  module _ (o : Own) where
    -- Announcements, messages, handshakes and encrypted payloads; other types do nothing here.
    unfoldable pub dispatch : Packet → List ℕ → PeerSession → Option (PeerSession × List Effect)
    dispatch p pkt peer =
        if p.type == bitchat_pkt_announce
        then some (handle_announce r o peer p.payload)
        else if p.type == bitchat_pkt_message
        then some (peer, handle_message r.now peer p.payload p.sender_id)
        else if p.type == bitchat_pkt_noise_handshake
        then handle_noise_handshake r o peer p.payload
        else if p.type == bitchat_pkt_noise_encrypted
        then handle_encrypted r o peer (take p.header_len pkt) p.payload
        else some (peer, [])

    unfoldable pub send_all : List (PeerSession × List ℕ) → List Effect
    send_all [] = []
    send_all ((p, bytes) ∷ calls) = send_to_peer r o p bytes ++ send_all calls

  abbrev pub with_peer : ℕ → PeerSession → BitchatBle → BitchatBle
  with_peer i peer st = record st { peers = set st.peers i peer }

  -- Announcements and messages are passed on to the other peers.
  unfoldable pub passed_on : Packet → List ℕ → ℕ → BitchatBle → BitchatBle × List Effect
  unfolding send_all
  passed_on p pkt handle st =
      let (relay, calls) = relay_packet r.now pkt handle st.peers st.relay in
      if ltb 1 p.ttl && ((p.type == bitchat_pkt_announce) || (p.type == bitchat_pkt_message))
      then (record st { relay = relay }, send_all st.own calls)
      else (st, [])

  abbrev after_dispatch :
      Packet
      → List ℕ
      → ℕ
      → ℕ
      → BitchatBle
      → Option (PeerSession × List Effect)
      → Option (BitchatBle × List Effect)
  after_dispatch p pkt handle i st none = none
  after_dispatch p pkt handle i st (some (peer, out)) =
      let (st', outs) = passed_on p pkt handle (with_peer i peer st) in some (st', out ++ outs)

  unfoldable pub handle_fragment_in : Slice → ℕ → BitchatBle → BitchatBle
  handle_fragment_in negative handle st = st
  handle_fragment_in (slice payload) handle st =
      let (slots, whole) = handle_fragment r.now handle payload st.slots in
      record st { slots = slots; queue = feed_reassembled handle whole st.queue }

  -- Fragments are not passed on, nor are requests, which are answered with an announcement.
  unfoldable pub handle_packet :
      Packet → List ℕ → ℕ → ℕ → PeerSession → BitchatBle → Option (BitchatBle × List Effect)
  unfolding dispatch passed_on handle_fragment_in
  handle_packet p pkt handle i peer st =
      if p.type == bitchat_pkt_fragment
      then some (handle_fragment_in p.payload handle (with_peer i peer st), [])
      else if p.type == bitchat_pkt_request_sync
      then (let (peer', out) = send_announce r st.own peer in some (with_peer i peer' st, out))
      else after_dispatch p pkt handle i st (dispatch st.own p pkt peer)

  -- The packet with its session; it is kept that the peer is known.
  abbrev checked :
      Packet
      → List ℕ
      → ℕ
      → ℕ
      → PeerSession
      → BitchatBle
      → Verdict
      → Option (BitchatBle × List Effect)
  checked p pkt handle i peer st outside = none
  checked p pkt handle i peer st drop_it = some (with_peer i peer st, [])
  checked p pkt handle i peer st pass = handle_packet p pkt handle i peer st

  abbrev in_session :
      Packet
      → List ℕ
      → ℕ
      → BitchatBle
      → Option (ℕ × List PeerSession)
      → Option (BitchatBle × List Effect)
  in_session p pkt handle st none = some (st, [])
  in_session p pkt handle st (some (i, peers)) =
      let peer = identified p.sender_id (get_or peers i zero_peer) in
      checked p pkt handle i peer (record st { peers = peers })
        (check_signature r.signer p pkt peer.sign_pubkey)

  abbrev read_as : List ℕ → ℕ → BitchatBle → Option Packet → Option (BitchatBle × List Effect)
  read_as pkt handle st none = some (st, [])
  read_as pkt handle st (some p) = in_session p pkt handle st (session_for r.now handle st.peers)

  abbrev behind_clock :
      List Effect → Option (BitchatBle × List Effect) → Option (BitchatBle × List Effect)
  behind_clock out none = none
  behind_clock out (some (st, outs)) = some (st, out ++ outs)

  -- `none`: the code reads or writes outside of an object. The entry is in the ring.
  unfoldable pub process_incoming : RxEntry → BitchatBle → Option (BitchatBle × List Effect)
  unfolding handle_packet session_for
  process_incoming entry st =
      let pkt = unpad_packet entry.bytes in
      behind_clock (clock_set pkt) (read_as pkt entry.conn_handle st (read_packet pkt))
