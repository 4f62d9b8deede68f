-- ===== src/Ble/Session/Timeout.antt =====
-- The handshakes that take too long.
use mathlib.Core.Path.{subst}
use bitchat_meshtastic.Prelude.{
  ◌≤◌, ℕ, zero, suc, ◌+◌, ◌<◌, ◌≡◌, refl, sym, ap, ◌∙◌, arith, true, false, Bool-cases, inl, inr,
  ==-refl, List, [], ◌∷◌, length, get_or, set, if◌then◌else◌,
}
use bitchat_meshtastic.Ble.Peers.{PeerSession, zero_peer, is_peer, free_peer}
use bitchat_meshtastic.Ble.Peers.Slots.{HasNo, AreDistinct, free_peer-AreDistinct, length-free_peer}
use bitchat_meshtastic.Ble.Send.{Radio}
use bitchat_meshtastic.Ble.Incoming.{BitchatBle}
use bitchat_meshtastic.Ble.Session.{on_disconnect, is_stuck, expire_peers}

get_or-HasNo :
    (handle i : ℕ) (ps : List PeerSession)
    → HasNo handle ps
    → is_peer handle (get_or ps i zero_peer) ≡ false
get_or-HasNo handle i [] h = refl
get_or-HasNo handle zero (p ∷ ps) (h, hs) = h
get_or-HasNo handle (suc i) (p ∷ ps) (h, hs) = get_or-HasNo handle i ps hs

-- With one session for each handle, the session at an index is the one that its handle frees.
free_peer-set :
    (i : ℕ) (ps : List PeerSession)
    → AreDistinct ps
    → (get_or ps i zero_peer).active ≡ true
    → (free_peer (get_or ps i zero_peer).conn_handle ps).0 ≡ set ps i zero_peer
unfolding free_peer
free_peer-set i [] d live = refl
free_peer-set zero (p ∷ ps) d live =
    let it : is_peer p.conn_handle p ≡ true = ground (arith, ==-refl p.conn_handle) in rw it refl
free_peer-set (suc i) (p ∷ ps) (d, ds) live =
    let q = get_or ps i zero_peer in
    elim (Bool-cases (is_peer q.conn_handle p)) [
      | inl both ↦
          let here : p.active ≡ true = ground arith in
          let same : p.conn_handle ≡ q.conn_handle = ground arith in
          let no_other : is_peer q.conn_handle q ≡ false =
            subst (λ k. is_peer k q ≡ false) same (get_or-HasNo p.conn_handle i ps (d here)) in
          absurd (ground (arith, ==-refl q.conn_handle))
      | inr other ↦ rw other (ap (λ qs. p ∷ qs) (free_peer-set i ps ds live))
    ]

module _ (r : Radio) where
  -- No session below `i` is stuck.
  abbrev NoneStuck : ℕ → List PeerSession → Type 0
  NoneStuck i ps = (j : ℕ) → j < i → is_stuck r (get_or ps j zero_peer) ≡ false

  -- The session is cleared if it is stuck.
  abbrev pub cleared : PeerSession → PeerSession
  cleared p = if is_stuck r p then zero_peer else p

  -- The sessions from the i-th on, cleared.
  unfoldable cleared_from : ℕ → List PeerSession → List PeerSession
  cleared_from i [] = []
  cleared_from zero (p ∷ ps) = cleared p ∷ cleared_from zero ps
  cleared_from (suc i) (p ∷ ps) = p ∷ cleared_from i ps

  cleared_from_past : (i : ℕ) (ps : List PeerSession) → length ps ≤ i → cleared_from i ps ≡ ps
  unfolding cleared_from
  cleared_from_past i [] h = refl
  cleared_from_past zero (p ∷ ps) h = absurd (omega arith)
  cleared_from_past (suc i) (p ∷ ps) h = ap (λ qs. p ∷ qs) (cleared_from_past i ps (omega arith))

  cleared_from-set :
      (i : ℕ) (ps : List PeerSession)
      → is_stuck r (get_or ps i zero_peer) ≡ true
      → cleared_from (suc i) (set ps i zero_peer) ≡ cleared_from i ps
  unfolding cleared_from
  cleared_from-set i [] h = refl
  cleared_from-set zero (p ∷ ps) h = rw h refl
  cleared_from-set (suc i) (p ∷ ps) h = ap (λ qs. p ∷ qs) (cleared_from-set i ps h)

  cleared_from_later :
      (i : ℕ) (ps : List PeerSession)
      → is_stuck r (get_or ps i zero_peer) ≡ false
      → cleared_from (suc i) ps ≡ cleared_from i ps
  unfolding cleared_from
  cleared_from_later i [] h = refl
  cleared_from_later zero (p ∷ ps) h = rw h refl
  cleared_from_later (suc i) (p ∷ ps) h = ap (λ qs. p ∷ qs) (cleared_from_later i ps h)

  expire_peers-cleared_from :
      (count i : ℕ) (st : BitchatBle)
      → length st.peers ≤ i + count
      → AreDistinct st.peers
      → (expire_peers r count i st).0.peers ≡ cleared_from i st.peers
  unfolding expire_peers on_disconnect
  expire_peers-cleared_from zero i st h d = sym (cleared_from_past i st.peers (omega arith))
  expire_peers-cleared_from (suc count) i st h d =
      let p = get_or st.peers i zero_peer in
      elim (Bool-cases (is_stuck r p)) [
        | inl stuck ↦
            let live : p.active ≡ true = ground arith in
            let freed : (free_peer p.conn_handle st.peers).0 ≡ set st.peers i zero_peer =
              free_peer-set i st.peers d live in
            rw stuck (
              expire_peers-cleared_from count (suc i) (on_disconnect p.conn_handle st).0
                (omega (arith, length-free_peer p.conn_handle st.peers))
                (free_peer-AreDistinct p.conn_handle st.peers d).0
              ∙ ap (cleared_from (suc i)) freed
              ∙ cleared_from-set i st.peers stuck)
        | inr fine ↦ rw fine (
            expire_peers-cleared_from count (suc i) st (omega arith) d
            ∙ cleared_from_later i st.peers fine)
      ]

  abbrev pub cleared_all : List PeerSession → List PeerSession
  cleared_all [] = []
  cleared_all (p ∷ ps) = cleared p ∷ cleared_all ps

  cleared_from_start : (ps : List PeerSession) → cleared_from 0 ps ≡ cleared_all ps
  unfolding cleared_from
  cleared_from_start [] = refl
  cleared_from_start (p ∷ ps) = ap (λ qs. cleared p ∷ qs) (cleared_from_start ps)

  -- The loop that frees stuck sessions, each by its handle, is a map over a table with one session for each handle: a stuck
  -- session is cleared, and every other one stays as it is, in its slot.
  pub expire_peers-cleared :
      (st : BitchatBle)
      → AreDistinct st.peers
      → (expire_peers r (length st.peers) 0 st).0.peers ≡ cleared_all st.peers
  expire_peers-cleared st d =
      expire_peers-cleared_from (length st.peers) 0 st (omega arith) d ∙ cleared_from_start st.peers
