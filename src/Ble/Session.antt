-- ===== src/Ble/Session.antt =====
-- `begin`, `end`, `loop`, the callbacks of connections and scans, `send_text`, `send_text_as` and
-- `announce_virtual` of src/bitchat/bitchat_ble.cpp.
pub mod Table
pub mod Timeout
pub mod Central
pub mod Drain
use bitchat_meshtastic.Prelude.{
  ℕ, zero, suc, ◌+◌, ◌%◌, ltb, ◌==◌, if◌then◌else◌, Bool, true, false, not, ◌&&◌, ◌||◌, Option,
  none, some, List, [], ◌∷◌, ◌++◌, length, get_or, set, take, replicate, sub32,
}
use bitchat_meshtastic.Config.{
  bitchat_max_connections, bitchat_handshake_timeout_ms, bitchat_announce_interval_ms,
}
use bitchat_meshtastic.Noise.Handshake.{is_idle, is_transport}
use bitchat_meshtastic.Ble.Queue.{zero_rx, rx_queue_size}
use bitchat_meshtastic.Ble.Packet.{Signer}
use bitchat_meshtastic.Ble.Identity.{BitchatKeypair}
use bitchat_meshtastic.Ble.Peers.{
  PeerSession, zero_peer, find_peer, new_peer, alloc_peer, free_peer, active_peer_count, Effect,
  close_client, start_advertising, start_scan, stop_scan, deinit,
}
use bitchat_meshtastic.Ble.Send.{
  Radio, Own, send_announce, send_leave, any_active, send_text_to_all, text_as, announce_as,
}
use bitchat_meshtastic.Ble.Incoming.{BitchatBle, process_incoming}

abbrev pub starts_with : List ℕ → List ℕ → Bool
starts_with [] bytes = true
starts_with (a ∷ as') [] = false
starts_with (a ∷ as') (b ∷ bytes) = (a == b) && starts_with as' bytes

-- The public key that RFC 8032 gives for the seed of zeros begins so.
abbrev self_test : Signer → Bool
self_test s = starts_with (0x3B ∷ 0x6A ∷ 0x27 ∷ 0xBC ∷ []) (s.create_keypair (replicate 32 0)).0

abbrev session_lost : ℕ → List PeerSession × Bool → BitchatBle → BitchatBle × List Effect
session_lost handle (peers, closed) st =
    (record st { peers = peers }, if closed then close_client handle ∷ [] else [])

unfoldable pub on_disconnect : ℕ → BitchatBle → BitchatBle × List Effect
on_disconnect handle st = session_lost handle (free_peer handle st.peers) st

-- The callback of the server; that of a client is `on_disconnect`.
abbrev pub server_disconnected : ℕ → BitchatBle → BitchatBle × List Effect
server_disconnected handle st =
    let (st', out) = on_disconnect handle st in (st', out ++ (start_advertising ∷ []))

unfoldable pub start_scanning : ℕ → BitchatBle → BitchatBle × List Effect
start_scanning now st =
    if st.scanning
    then (st, [])
    else (record st { scanning = true; last_scan_ms = now }, start_scan ∷ [])

abbrev pub scan_complete : BitchatBle → BitchatBle × List Effect
scan_complete st = (record st { scanning = false }, start_advertising ∷ [])

-- `identity` is what `bitchat_identity_init` gives.
unfoldable pub begin :
    ℕ → Signer → Option BitchatKeypair → BitchatBle → BitchatBle × List Effect × Bool
unfolding start_scanning
begin now s identity st = if not (self_test s) then (st, [], false) else (elim identity [
  | none ↦ (st, [], false)
  | some kp ↦
      let (st', out) =
        start_scanning now
          (record st { active = true; own = record { keypair = kp; server = true } }) in
      (st', start_advertising ∷ out, true)
])

module _ (r : Radio) where
  unfoldable pub on_connect : ℕ → List ℕ → Bool → BitchatBle → BitchatBle × List Effect
  on_connect handle addr we_are_central st =
      elim (alloc_peer (new_peer r.now handle (some addr) we_are_central) st.peers) [
        | none ↦ (st, [])
        | some (i, peers) ↦
            let (p, out) = send_announce r st.own (get_or peers i zero_peer) in
            (record st { peers = set peers i p }, out)
      ]

  abbrev pub server_connected : ℕ → List ℕ → BitchatBle → BitchatBle × List Effect
  server_connected handle addr st =
      let (st', out) = on_connect handle addr false st in (st', out ++ (start_advertising ∷ []))

  -- The client and its characteristic are stored when the session is there.
  abbrev pub with_client : ℕ → BitchatBle → BitchatBle
  with_client handle st = elim (find_peer handle st.peers) [
    | none ↦ st
    | some i ↦ record st {
      peers =
          set st.peers i
            (record (get_or st.peers i zero_peer) { client = true; remote_chr = true });
    }
  ]

  -- `link` is the handle of the connection where the peer was reached and has the service and its
  -- characteristic.
  unfoldable pub connect_to_peripheral : List ℕ → Option ℕ → BitchatBle → BitchatBle × List Effect
  unfolding on_connect
  connect_to_peripheral addr link st = elim link [
    | none ↦ (st, [])
    | some handle ↦ let (st', out) = on_connect handle addr true st in (with_client handle st', out)
  ]

  abbrev same_addr : List ℕ → List ℕ → Bool
  same_addr a b = starts_with a b && starts_with b a

  unfoldable pub connected_to : List ℕ → List PeerSession → Bool
  connected_to addr [] = false
  connected_to addr (p ∷ ps) = (p.active && same_addr p.ble_addr addr) || connected_to addr ps

  -- `suits`: the device advertises the service, and its signal is strong enough.
  unfoldable pub on_scan_result : Bool → List ℕ → Option ℕ → BitchatBle → BitchatBle × List Effect
  unfolding connect_to_peripheral connected_to
  on_scan_result suits addr link st =
      let full = not (ltb (active_peer_count st.peers) bitchat_max_connections) in
      if not suits || (connected_to addr st.peers || full)
      then (st, [])
      else (let (st', out) = connect_to_peripheral addr link (record st { scanning = false }) in
          (st', stop_scan ∷ (out ++ (start_advertising ∷ []))))

  -- The loop `while (_rx_tail != _rx_head)`, for at most `fuel` entries.
  abbrev pub advanced : BitchatBle → BitchatBle
  advanced st = record st { queue = record st.queue { tail = (st.queue.tail + 1) % rx_queue_size } }

  abbrev pub and_then :
      Option (BitchatBle × List Effect)
      → (BitchatBle → Option (BitchatBle × List Effect))
      → Option (BitchatBle × List Effect)
  and_then none f = none
  and_then (some (st, out)) f = elim (f st) [
    | none ↦ none
    | some (st', outs) ↦ some (st', out ++ outs)
  ]

  unfoldable pub drain_queue : ℕ → BitchatBle → Option (BitchatBle × List Effect)
  unfolding process_incoming
  drain_queue zero st = some (st, [])
  drain_queue (suc fuel) st =
      let round =
        and_then (process_incoming r (get_or st.queue.slots st.queue.tail zero_rx) st)
          (λ st'. drain_queue fuel (advanced st')) in
      if st.queue.tail == st.queue.head then some (st, []) else round

  -- A handshake that was begun and is not done after 15 seconds.
  abbrev pub is_stuck : PeerSession → Bool
  is_stuck p =
      p.active
      && (not (is_transport p.hs.phase)
          && (not (is_idle p.hs.phase)
              && ltb bitchat_handshake_timeout_ms (sub32 r.now p.connect_time_ms)))

  -- From the i-th session on, `count` of them.
  unfoldable pub expire_peers : ℕ → ℕ → BitchatBle → BitchatBle × List Effect
  unfolding on_disconnect
  expire_peers zero i st = (st, [])
  expire_peers (suc count) i st =
      let p = get_or st.peers i zero_peer in
      let (st', out) = (if is_stuck p then on_disconnect p.conn_handle st else (st, [])) in
      let (st'', outs) = expire_peers count (suc i) st' in (st'', out ++ outs)

  unfoldable pub announce_again : Own → List PeerSession → List PeerSession × List Effect
  announce_again o [] = ([], [])
  announce_again o (p ∷ ps) =
      let (p', out) = (if p.active && p.announce_sent then send_announce r o p else (p, [])) in
      let (ps', outs) = announce_again o ps in (p' ∷ ps', out ++ outs)

  abbrev scan_if_room : BitchatBle → BitchatBle × List Effect
  scan_if_room st =
      if ltb 15000 (sub32 r.now st.last_scan_ms)
        && ltb (active_peer_count st.peers) bitchat_max_connections
      then start_scanning r.now st
      else (st, [])

  abbrev announce_if_due : BitchatBle → BitchatBle × List Effect
  announce_if_due st =
      let (peers, out) = announce_again st.own st.peers in
      if ltb bitchat_announce_interval_ms (sub32 r.now st.last_announce_ms)
      then (record st { peers = peers; last_announce_ms = r.now }, out)
      else (st, [])

  -- What `loop` does behind the ring.
  unfoldable pub maintain : BitchatBle → BitchatBle × List Effect
  unfolding start_scanning expire_peers announce_again
  maintain st =
      let (st1, out1) = scan_if_room st in
      let (st2, out2) = expire_peers (length st1.peers) 0 st1 in
      let (st3, out3) = announce_if_due st2 in (st3, out1 ++ (out2 ++ out3))

  unfoldable pub loop : ℕ → BitchatBle → Option (BitchatBle × List Effect)
  unfolding drain_queue maintain
  loop fuel st =
      if not st.active
      then some (st, [])
      else and_then (drain_queue fuel st) (λ st'. some (maintain st'))

  unfoldable pub end : BitchatBle → BitchatBle × List Effect
  end st = if not st.active then (st, []) else (
    record st { active = false; own = record st.own { server = false } },
    send_leave r st.own st.peers ++ (deinit ∷ []),
  )

  unfoldable pub send_text : List ℕ → BitchatBle → BitchatBle × List Effect × Bool
  send_text text st =
      let (peers, out) = send_text_to_all r st.own text st.peers in
      if not st.active
      then (st, [], false)
      else (record st { peers = peers }, out, any_active r st.own st.peers)

  -- `identity` is `none` for a null pointer.
  unfoldable pub send_text_as :
      List ℕ → Option BitchatKeypair → BitchatBle → BitchatBle × List Effect × Bool
  send_text_as text none st = (st, [], false)
  send_text_as text (some identity) st =
      let (relay, out) = text_as r st.own text identity st.peers st.relay in
      if not st.active
      then (st, [], false)
      else (record st { relay = relay }, out, any_active r st.own st.peers)

  unfoldable pub announce_virtual :
      Option BitchatKeypair → Option (List ℕ) → BitchatBle → BitchatBle × List Effect
  announce_virtual none name st = (st, [])
  announce_virtual (some identity) name st =
      let (relay, out) = announce_as r st.own identity name st.peers st.relay in
      if not st.active then (st, []) else (record st { relay = relay }, out)
