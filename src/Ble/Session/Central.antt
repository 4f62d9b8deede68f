-- ===== src/Ble/Session/Central.antt =====
-- A connection that this end began.
use bitchat_meshtastic.Prelude.{
  ℕ, ◌≡◌, refl, ap, arith, Bool, true, false, Bool-cases, inl, inr, not, ◌&&◌, ◌==◌, Option, none,
  some, List, [], ◌∷◌, ◌++◌, length, get_or, set, All, if◌then◌else◌, ltb,
}
use bitchat_meshtastic.Ble.Peers.{
  PeerSession, zero_peer, new_peer, alloc_peer, shifted, Effect, write_value, notify,
}
use bitchat_meshtastic.Ble.Fragments.{fragment_payloads}
use bitchat_meshtastic.Ble.Send.{
  Radio, Own, peer_mtu, deliver, deliver_fragments, send_to_peer, announce_packet, send_announce,
}
use bitchat_meshtastic.Ble.Incoming.{BitchatBle}
use bitchat_meshtastic.Ble.Session.{on_connect, connect_to_peripheral}

abbrev pub is_write : Effect → Bool
is_write (write_value handle bytes) = true
is_write _ = false

abbrev pub NoWrite : List Effect → Type 0
NoWrite out = All (λ e. is_write e ≡ false) out

NoWrite-append : (xs ys : List Effect) → NoWrite xs → NoWrite ys → NoWrite (xs ++ ys)
NoWrite-append [] ys hx hy = hy
NoWrite-append (x ∷ xs) ys (h, hx) hy = (h, NoWrite-append xs ys hx hy)

-- The session in the slot that is taken.
abbrev TakenBy : PeerSession → Option (ℕ × List PeerSession) → Type 0
TakenBy new none = Unit {0}
TakenBy new (some (i, ps)) = get_or ps i zero_peer ≡ new

shifted-TakenBy :
    (new p : PeerSession) (m : Option (ℕ × List PeerSession))
    → TakenBy new m
    → TakenBy new (shifted p m)
shifted-TakenBy new p none h = tt
shifted-TakenBy new p (some (i, ps)) h = h

alloc_peer-TakenBy : (new : PeerSession) (ps : List PeerSession) → TakenBy new (alloc_peer new ps)
unfolding alloc_peer
alloc_peer-TakenBy new [] = tt
alloc_peer-TakenBy new (p ∷ ps) = here (alloc_peer-TakenBy new ps) p.active
  where
    here :
        TakenBy new (alloc_peer new ps)
        → (b : Bool) → TakenBy new (if b then shifted p (alloc_peer new ps) else some (0, new ∷ ps))
    here rest true = shifted-TakenBy new p (alloc_peer new ps) rest
    here rest false = refl

module _ (r : Radio) (o : Own) (p : PeerSession) (before : p.remote_chr ≡ false) where
  deliver-NoWrite : (bytes : List ℕ) → NoWrite (deliver r o p bytes)
  unfolding deliver
  deliver-NoWrite bytes = here p.we_are_central o.server p.remote_chr before
    where
      here :
          (central server chr : Bool)
          → chr ≡ false
          → NoWrite (
              if central && chr
              then write_value p.conn_handle bytes ∷ []
              else if server
              then notify bytes ∷ []
              else [])
      here true server true e = absurd (ground arith)
      here true true false e = (refl, tt)
      here true false false e = tt
      here false true chr e = (refl, tt)
      here false false chr e = tt

  deliver_fragments-NoWrite :
      (payloads : List (List ℕ)) → NoWrite (deliver_fragments r o p payloads)
  unfolding deliver_fragments
  deliver_fragments-NoWrite [] = tt
  deliver_fragments-NoWrite (payload ∷ payloads) =
      NoWrite-append _ (deliver_fragments r o p payloads) (deliver-NoWrite _)
        (deliver_fragments-NoWrite payloads)

  send_to_peer-NoWrite : (bytes : List ℕ) → NoWrite (send_to_peer r o p bytes)
  unfolding send_to_peer
  send_to_peer-NoWrite bytes =
      elim (Bool-cases (ltb (peer_mtu r o p) (length bytes) && not (get_or bytes 1 0 == 0x20))) [
        | inl long ↦
            rw long
              (deliver_fragments-NoWrite (fragment_payloads (r.frag_id p.conn_handle bytes) bytes))
        | inr fits ↦ rw fits (deliver-NoWrite bytes)
      ]

module _ (r : Radio) where
  -- On a connection that this end began, the announcement goes out before the characteristic of the peer is stored: it
  -- is notified to those that subscribed to this end, or nowhere, and nothing is written to the peer.
  pub connect_to_peripheral-NoWrite :
      (addr : List ℕ) (link : Option ℕ) (st : BitchatBle)
      → NoWrite (connect_to_peripheral r addr link st).1
  unfolding connect_to_peripheral on_connect send_announce
  connect_to_peripheral-NoWrite addr none st = tt
  connect_to_peripheral-NoWrite addr (some handle) st =
      here (alloc_peer new st.peers) (alloc_peer-TakenBy new st.peers)
    where
      new : PeerSession
      new = new_peer r.now handle (some addr) true

      here :
          (m : Option (ℕ × List PeerSession))
          → TakenBy new m
          → (let next : BitchatBle × List Effect = elim m [
            | none ↦ (st, [])
            | some (i, peers) ↦
                let (p, out) = send_announce r st.own (get_or peers i zero_peer) in
                (record st { peers = set peers i p }, out)
          ] in
              NoWrite next.1)
      here none h = tt
      here (some (i, ps)) h =
          send_to_peer-NoWrite r st.own (get_or ps i zero_peer) (ap (λ p. p.remote_chr) h)
            (announce_packet r st.own)
