-- ===== src/Ble/Peers/Slots.antt =====
-- The slots of the peers: at most one active session has a handle.
use mathlib.Core.Path.{subst}
use bitchat_meshtastic.Prelude.{
  ℕ, suc, ◌≡◌, ◌⊎◌, inl, inr, refl, ap, ◌∙◌, arith, ==-refl, if◌then◌else◌, Bool, true, false,
  Bool-cases, none, some, List, [], ◌∷◌, length, All,
}
use bitchat_meshtastic.Ble.Peers.{PeerSession, is_peer, find_peer, alloc_peer, shifted, free_peer}

abbrev pub HasNo : ℕ → List PeerSession → Type 0
HasNo handle ps = All (λ p. is_peer handle p ≡ false) ps

abbrev pub AreDistinct : List PeerSession → Type 0
AreDistinct [] = Unit {0}
AreDistinct (p ∷ ps) = (p.active ≡ true → HasNo p.conn_handle ps) × AreDistinct ps

abbrev pub AreFull : List PeerSession → Type 0
AreFull ps = All (λ p. p.active ≡ true) ps

pub find_peer-HasNo :
    (handle : ℕ) (ps : List PeerSession) → find_peer handle ps ≡ none → HasNo handle ps
unfolding find_peer
find_peer-HasNo handle [] h = tt
find_peer-HasNo handle (p ∷ ps) h = ground (arith, find_peer-HasNo handle ps)

pub find_peer_of-HasNo :
    (handle : ℕ) (ps : List PeerSession) → HasNo handle ps → find_peer handle ps ≡ none
unfolding find_peer
find_peer_of-HasNo handle [] h = refl
find_peer_of-HasNo handle (p ∷ ps) (h, hs) = rw (h, find_peer_of-HasNo handle ps hs) refl

alloc_peer-busy :
    (new p : PeerSession) (ps : List PeerSession)
    → p.active ≡ true
    → alloc_peer new (p ∷ ps) ≡ shifted p (alloc_peer new ps)
unfolding alloc_peer
alloc_peer-busy new p ps h = taken p.active h
  where
    taken :
        (b : Bool)
        → b ≡ true
        → (if b then shifted p (alloc_peer new ps) else some (0, new ∷ ps))
          ≡ shifted p (alloc_peer new ps)
    taken b e = rw e refl

-- What a new session finds: a full table, or a slot.
abbrev pub Allocated : PeerSession → List PeerSession → Type 0
Allocated new ps =
    ((alloc_peer new ps ≡ none) × AreFull ps)
    ⊎ ((i : ℕ) × (ps' : List PeerSession) × (alloc_peer new ps ≡ some (i, ps'))
        × AreDistinct ps'
        × (length ps' ≡ length ps)
        × (find_peer new.conn_handle ps' ≡ some i)
        × ((handle : ℕ) → HasNo handle ps → is_peer handle new ≡ false → HasNo handle ps'))

pub alloc_peer-Allocated :
    (new : PeerSession) (ps : List PeerSession)
    → new.active ≡ true
    → HasNo new.conn_handle ps
    → AreDistinct ps
    → Allocated new ps
unfolding alloc_peer find_peer
alloc_peer-Allocated new [] live none_yet d = inl (refl, tt)
alloc_peer-Allocated new (p ∷ ps) live (none_here, none_yet) (d, ds) = elim (Bool-cases p.active) [
  | inl busy ↦ elim (alloc_peer-Allocated new ps live none_yet ds) [
    | inl (full, all) ↦ inl (alloc_peer-busy new p ps busy ∙ ap (shifted p) full, (busy, all))
    | inr (i, ps', at, ds', same, found, others) ↦ inr (
      suc i,
      p ∷ ps',
      alloc_peer-busy new p ps busy ∙ ap (shifted p) at,
      (λ h. others p.conn_handle (d h) (ground arith), ds'),
      ap suc same,
      rw (none_here, found, find_peer) refl,
      λ handle (h, hs) other. (h, others handle hs other),
    )
  ]
  | inr free ↦ inr (
    0,
    new ∷ ps,
    rw free refl,
    (λ h. none_yet, ds),
    refl,
    rw (live, ==-refl new.conn_handle) refl,
    λ handle (h, hs) other. (other, hs),
  )
]

free_peer-HasNo :
    (handle other : ℕ) (ps : List PeerSession)
    → HasNo handle ps
    → HasNo handle (free_peer other ps).0
unfolding free_peer
free_peer-HasNo handle other [] h = tt
free_peer-HasNo handle other (p ∷ ps) (h, hs) = elim (Bool-cases (is_peer other p)) [
  | inl it ↦ rw it (refl, hs)
  | inr no_peer ↦ rw no_peer (h, free_peer-HasNo handle other ps hs)
]

pub free_peer-AreDistinct :
    (handle : ℕ) (ps : List PeerSession)
    → AreDistinct ps
    → AreDistinct (free_peer handle ps).0 × HasNo handle (free_peer handle ps).0
unfolding free_peer
free_peer-AreDistinct handle [] d = (tt, tt)
free_peer-AreDistinct handle (p ∷ ps) (d, ds) = elim (Bool-cases (is_peer handle p)) [
  | inl it ↦
      let same : p.conn_handle ≡ handle = ground arith in
      let live : p.active ≡ true = ground arith in
      rw it ((λ h. cc, ds), (refl, subst (λ k. HasNo k ps) same (d live)))
  | inr other ↦
      let (ds', gone) = free_peer-AreDistinct handle ps ds in
      rw other ((λ h. free_peer-HasNo p.conn_handle handle ps (d h), ds'), (other, gone))
]

pub length-free_peer :
    (handle : ℕ) (ps : List PeerSession) → length (free_peer handle ps).0 ≡ length ps
unfolding free_peer
length-free_peer handle [] = refl
length-free_peer handle (p ∷ ps) = elim (Bool-cases (is_peer handle p)) [
  | inl it ↦ rw it refl
  | inr other ↦ rw other (ap suc (length-free_peer handle ps))
]
