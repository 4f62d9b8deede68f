-- ===== src/Ble/Session/Table.antt =====
-- The table of sessions in every state that the class can come to.
use bitchat_meshtastic.Prelude.{
  ℕ, zero, suc, ◌≡◌, inl, inr, refl, ◌∙◌, Bool, true, false, Bool-cases, ltb, ◌&&◌, if◌then◌else◌,
  some, List, [], ◌∷◌, get_or, sub32,
}
use bitchat_meshtastic.Ble.Queue.{RxEntry}
use bitchat_meshtastic.Ble.Peers.{
  PeerSession, zero_peer, no_peers, Effect, start_scan, active_peer_count,
}
use bitchat_meshtastic.Config.{bitchat_max_connections}
use bitchat_meshtastic.Ble.Peers.Slots.{HasNo, free_peer-AreDistinct, length-free_peer}
use bitchat_meshtastic.Ble.Send.{Radio}
use bitchat_meshtastic.Ble.Handle.Keeps.{Keeps}
use bitchat_meshtastic.Ble.Incoming.{BitchatBle, process_incoming}
use bitchat_meshtastic.Ble.Incoming.Table.{IsTable}
use bitchat_meshtastic.Ble.Session.{
  on_connect, on_disconnect, is_stuck, expire_peers, start_scanning, scan_if_room, maintain,
  send_text, connect_to_peripheral,
}

-- What can happen to the class: an entry of the ring is processed, the server is connected to, or
-- this end connects, on a handle that has no session, a connection is lost, a text is sent, and the
-- part of `loop` behind the ring runs.
pub data BleStep (st : BitchatBle) : BitchatBle → Type 0 where
  incoming :
      {st' : BitchatBle} (r : Radio) (entry : RxEntry) (out : List Effect)
      → process_incoming r entry st ≡ some (st', out)
      → BleStep st st'
  connection :
      {st' : BitchatBle} (r : Radio) (handle : ℕ) (addr : List ℕ) (central : Bool)
      → HasNo handle st.peers
      → st' ≡ (on_connect r handle addr central st).0
      → BleStep st st'
  link :
      {st' : BitchatBle} (r : Radio) (addr : List ℕ) (handle : ℕ)
      → HasNo handle st.peers
      → st' ≡ (connect_to_peripheral r addr (some handle) st).0
      → BleStep st st'
  loss : {st' : BitchatBle} (handle : ℕ) → st' ≡ (on_disconnect handle st).0 → BleStep st st'
  text :
      {st' : BitchatBle} (r : Radio) (bytes : List ℕ)
      → st' ≡ (send_text r bytes st).0
      → BleStep st st'
  upkeep : {st' : BitchatBle} (r : Radio) → st' ≡ (maintain r st).0 → BleStep st st'

-- The states that come from one with an empty table.
pub data Reached : BitchatBle → Type 0 where
  start : {st : BitchatBle} → st.peers ≡ no_peers → Reached st
  after : {st st' : BitchatBle} → Reached st → BleStep st st' → Reached st'

-- One table is as the other, session by session.
abbrev Follows : List PeerSession → List PeerSession → Type 0
Follows [] qs = qs ≡ []
Follows (p ∷ ps) qs =
    (q : PeerSession) × (qs' : List PeerSession) × (qs ≡ q ∷ qs') × Keeps p q × Follows ps qs'

pub on_disconnect-IsTable :
    (handle : ℕ) (st : BitchatBle) → IsTable st.peers → IsTable (on_disconnect handle st).0.peers
unfolding on_disconnect
on_disconnect-IsTable handle st (d, n) =
    ((free_peer-AreDistinct handle st.peers d).0, length-free_peer handle st.peers ∙ n)

module _ (r : Radio) where
  pub expire_peers-IsTable :
      (count i : ℕ) (st : BitchatBle)
      → IsTable st.peers
      → IsTable (expire_peers r count i st).0.peers
  unfolding expire_peers
  expire_peers-IsTable zero i st table = table
  expire_peers-IsTable (suc count) i st table =
      elim (Bool-cases (is_stuck r (get_or st.peers i zero_peer))) [
        | inl stuck ↦ rw stuck (
            expire_peers-IsTable count (suc i)
              (on_disconnect (get_or st.peers i zero_peer).conn_handle st).0
              (on_disconnect-IsTable (get_or st.peers i zero_peer).conn_handle st table))
        | inr fine ↦ rw fine (expire_peers-IsTable count (suc i) st table)
      ]

  pub scan_if_room-peers : (st : BitchatBle) → (scan_if_room r st).0.peers ≡ st.peers
  unfolding start_scanning
  scan_if_room-peers st =
      scanned
        (ltb 15000 (sub32 r.now st.last_scan_ms)
          && ltb (active_peer_count st.peers) bitchat_max_connections)
        st.scanning
    where
      scanned :
          (due scanning : Bool)
          → (let next : BitchatBle × List Effect =
                (if due
                  then (if scanning
                      then (st, [])
                      else (record st { scanning = true; last_scan_ms = r.now }, start_scan ∷ []))
                  else (st, [])) in
              next.0.peers ≡ st.peers)
      scanned true true = refl
      scanned true false = refl
      scanned false scanning = refl
