-- ===== src/Bridge/Registry.antt =====
-- src/bridge/virtual_identity.h: the registry of identities derived for Meshtastic nodes.
pub mod Evict
pub mod Distinct
pub mod Create
pub mod Shed
use bitchat_meshtastic.Prelude.{
  ℕ, zero, suc, ltb, leb, ◌==◌, if◌then◌else◌, Bool, ◌&&◌, Option, none, some, List, [], ◌∷◌, ◌++◌,
  length, sub32,
}
use bitchat_meshtastic.Config.{
  virt_id_max_slots, virt_id_heap_reserve_bytes, virt_id_heap_critical_bytes, virt_id_timeout_ms,
}

-- `K` is the key pair, which the registry only carries.
pub record VirtualIdentity (K : Type 0) : Type 0 where
  pub mesh_node_id : ℕ
  pub keypair : K
  pub last_seen_ms : ℕ
  pub display_name : List ℕ

-- What `get_or_create` returns, the vector, and the identities evicted, in order.
pub record Created (K : Type 0) : Type 0 where
  pub vi : Option (VirtualIdentity K)
  pub identities : List (VirtualIdentity K)
  pub evicted : List (VirtualIdentity K)

module _ {K : Type 0} where
  unfoldable pub find : ℕ → List (VirtualIdentity K) → Option (VirtualIdentity K)
  find node_id [] = none
  find node_id (vi ∷ vis) = if vi.mesh_node_id == node_id then some vi else find node_id vis

  -- The first identity of the node is marked as seen: the result is it, and the vector.
  unfoldable pub touch :
      ℕ → ℕ → List (VirtualIdentity K) → Option (VirtualIdentity K × List (VirtualIdentity K))
  touch now node_id [] = none
  touch now node_id (vi ∷ vis) =
      let rest = touch now node_id vis in
      if vi.mesh_node_id == node_id
      then (let vi' = record vi { last_seen_ms = now } in some (vi', vi' ∷ vis))
      else (elim rest [ none ↦ none | some (found, vis') ↦ some (found, vi ∷ vis') ])

  -- `free_heap` is a reading of `esp_get_free_heap_size`.
  abbrev pub can_grow : ℕ → List (VirtualIdentity K) → Bool
  can_grow free_heap vis =
      ltb (length vis) virt_id_max_slots && ltb virt_id_heap_reserve_bytes free_heap

  -- Those that stay, and those that expire, for which the callback is called in this order.
  unfoldable pub expire_stale :
      ℕ → ℕ → List (VirtualIdentity K) → List (VirtualIdentity K) × List (VirtualIdentity K)
  expire_stale timeout_ms now [] = ([], [])
  expire_stale timeout_ms now (vi ∷ vis) =
      let (stay, gone) = expire_stale timeout_ms now vis in
      if ltb timeout_ms (sub32 now vi.last_seen_ms) then (stay, vi ∷ gone) else (vi ∷ stay, gone)

  -- The loop of `_evict_lru`: `lru` is the one found so far, the first of those that were seen
  -- longest ago.
  unfoldable pub oldest : VirtualIdentity K → List (VirtualIdentity K) → VirtualIdentity K
  oldest lru [] = lru
  oldest lru (vi ∷ vis) = oldest (if ltb vi.last_seen_ms lru.last_seen_ms then vi else lru) vis

  -- Erases the first identity that was last seen at the time.
  unfoldable pub erase : ℕ → List (VirtualIdentity K) → List (VirtualIdentity K)
  erase last_seen_ms [] = []
  erase last_seen_ms (vi ∷ vis) =
      if vi.last_seen_ms == last_seen_ms then vis else vi ∷ erase last_seen_ms vis

  -- The identity evicted is the first of those with the least time, so it is the one erased.
  unfoldable pub evict_lru :
      List (VirtualIdentity K) → List (VirtualIdentity K) × List (VirtualIdentity K)
  unfolding oldest erase
  evict_lru [] = ([], [])
  evict_lru (vi ∷ vis) = let lru = oldest vi vis in (erase lru.last_seen_ms (vi ∷ vis), lru ∷ [])

  -- `key` is what `bitchat_derive_keypair` yields for the node.
  unfoldable pub create :
      ℕ → ℕ → Option K → List (VirtualIdentity K) → List (VirtualIdentity K) → Created K
  create now node_id none vis evicted = record { vi = none; identities = vis; evicted = evicted }
  create now node_id (some key) vis evicted =
      let vi : VirtualIdentity K = record {
        mesh_node_id = node_id;
        keypair = key;
        last_seen_ms = now;
        display_name = [];
      } in
      record { vi = some vi; identities = vis ++ (vi ∷ []); evicted = evicted }

  -- The vector after making room, and the identities evicted; `heap n` is the n-th reading.
  unfoldable pub make_room :
      (ℕ → ℕ) → ℕ → List (VirtualIdentity K) → List (VirtualIdentity K) × List (VirtualIdentity K)
  unfolding expire_stale evict_lru
  make_room heap now vis =
      let (stay, gone) = expire_stale virt_id_timeout_ms now vis in
      if can_grow (heap 1) stay
      then (stay, gone)
      else (let (left, lru) = evict_lru stay in (left, gone ++ lru))

  unfoldable pub grow : (ℕ → ℕ) → ℕ → ℕ → Option K → List (VirtualIdentity K) → Created K
  unfolding make_room create
  grow heap now node_id key vis =
      if can_grow (heap 0) vis
      then create now node_id key vis []
      else (let (vis', evicted) = make_room heap now vis in
          if can_grow (heap 2) vis'
          then create now node_id key vis' evicted
          else record { vi = none; identities = vis'; evicted = evicted })

  unfoldable pub get_or_create : (ℕ → ℕ) → ℕ → ℕ → Option K → List (VirtualIdentity K) → Created K
  unfolding touch grow
  get_or_create heap now node_id key vis = elim (touch now node_id vis) [
    | some (vi, vis') ↦ record { vi = some vi; identities = vis'; evicted = [] }
    | none ↦ grow heap now node_id key vis
  ]

  -- The loop of `check_memory_pressure`; each round takes one identity away, so as many rounds as
  -- there are identities are enough.
  unfoldable pub shed :
      ℕ
      → (ℕ → ℕ)
      → ℕ
      → List (VirtualIdentity K)
      → List (VirtualIdentity K) × List (VirtualIdentity K)
  shed zero heap n vis = (vis, [])
  shed (suc fuel) heap n [] = ([], [])
  shed (suc fuel) heap n (vi ∷ vis) =
      let (left, lru) = evict_lru (vi ∷ vis) in
      let (rest, more) = shed fuel heap (suc n) left in
      if ltb (heap n) virt_id_heap_reserve_bytes then (rest, lru ++ more) else (vi ∷ vis, [])

  unfoldable pub check_memory_pressure :
      (ℕ → ℕ) → List (VirtualIdentity K) → List (VirtualIdentity K) × List (VirtualIdentity K)
  unfolding shed
  check_memory_pressure heap vis =
      if leb virt_id_heap_critical_bytes (heap 0) then (vis, []) else shed (length vis) heap 1 vis
