-- ===== src/Bridge/Registry/Create.antt =====
-- `get_or_create`: the registry stays well-formed, and the identity it returns is the node's.
use bitchat_meshtastic.Prelude.{
  ℕ, ◌≡◌, ◌≢◌, inl, inr, refl, sym, arith, ◌==◌, ==-refl, eq_of-==, ==-of_ne, false, Bool-cases,
  Option, none, some, List, [], ◌∷◌, ◌++◌, length,
}
use bitchat_meshtastic.Bridge.Registry.{
  VirtualIdentity, Created, find, touch, can_grow, create, make_room, grow, get_or_create,
}
use bitchat_meshtastic.Bridge.Registry.Distinct.{
  Absent, DistinctNodes, IsRegistry, make_room-Keeps, grow-IsRegistry,
}

module _ {K : Type 0} where
  -- What `touch` yields: nothing where the node is absent, else its identity, marked as seen.
  data Touched (now node_id : ℕ) (vis : List (VirtualIdentity K))
      : Option (VirtualIdentity K × List (VirtualIdentity K)) → Type 0 where
    absent : Absent node_id vis → Touched now node_id vis none
    found :
        (v : VirtualIdentity K) (vis' : List (VirtualIdentity K))
        → v.mesh_node_id ≡ node_id
        → v.last_seen_ms ≡ now
        → find node_id vis' ≡ some v
        → ((n : ℕ) → Absent n vis → Absent n vis')
        → (DistinctNodes vis → DistinctNodes vis')
        → length vis' ≡ length vis
        → Touched now node_id vis (some (v, vis'))

  touch-Touched :
      (now node_id : ℕ) (vis : List (VirtualIdentity K))
      → Touched now node_id vis (touch now node_id vis)
  unfolding touch
  touch-Touched now node_id [] = absent tt
  touch-Touched now node_id (v ∷ vis) = elim (Bool-cases (v.mesh_node_id == node_id)) [
    | inl p ↦ rw p (
        found (record v { last_seen_ms = now }) (record v { last_seen_ms = now } ∷ vis)
          (eq_of-== v.mesh_node_id node_id p) refl (unfold find in rw p refl) (λ n h. h) (λ h. h)
          refl)
    | inr p ↦
        rw p (past (touch now node_id vis) (touch-Touched now node_id vis) (λ e. ground arith) p)
  ]
    where
      past :
          (t : Option (VirtualIdentity K × List (VirtualIdentity K)))
          → Touched now node_id vis t
          → v.mesh_node_id ≢ node_id
          → (v.mesh_node_id == node_id) ≡ false
          → Touched now node_id
              (v ∷ vis)
              (elim t [ none ↦ none | some (f, vis') ↦ some (f, v ∷ vis') ])
      past _ (absent h) ne p = absent (ne, h)
      past _ (found f vis' hn ht hf ha hd hl) ne p =
          found f (v ∷ vis') hn ht (unfold find in rw p hf) (λ n (h, hs). (h, ha n hs))
            (λ (h, hs). (ha v.mesh_node_id h, hd hs)) (omega arith)

  some-injective : {x y : VirtualIdentity K} → some x ≡ some y → x ≡ y
  some-injective e = cc

  find-new :
      (vis : List (VirtualIdentity K)) (v : VirtualIdentity K)
      → Absent v.mesh_node_id vis
      → find v.mesh_node_id (vis ++ (v ∷ [])) ≡ some v
  unfolding find
  find-new [] v h = rw (==-refl v.mesh_node_id) refl
  find-new (w ∷ vis) v (hw, h) =
      rw (==-of_ne w.mesh_node_id v.mesh_node_id hw, find-new vis v h) refl

  -- The identity is the node's, seen now, and the one that is found for the node.
  abbrev IsFor : ℕ → ℕ → Created K → Type 0
  IsFor now node_id r =
      (v : VirtualIdentity K)
      → r.vi ≡ some v
      → (v.mesh_node_id ≡ node_id) × (v.last_seen_ms ≡ now) × (find node_id r.identities ≡ some v)

  create-IsFor :
      (now node_id : ℕ) (key : Option K) (vis evicted : List (VirtualIdentity K))
      → Absent node_id vis
      → IsFor now node_id (create now node_id key vis evicted)
  unfolding create
  create-IsFor now node_id none vis evicted ha v e = cc
  create-IsFor now node_id (some key) vis evicted ha v e =
      let w : VirtualIdentity K = record {
        mesh_node_id = node_id;
        keypair = key;
        last_seen_ms = now;
        display_name = [];
      } in
      rw (sym (some-injective e)) (refl, refl, find-new vis w ha)

  nothing-IsFor :
      (now node_id : ℕ) (vis evicted : List (VirtualIdentity K))
      → IsFor now node_id (record { vi = none; identities = vis; evicted = evicted })
  nothing-IsFor now node_id vis evicted v e = cc

  grow-IsFor :
      (heap : ℕ → ℕ) (now node_id : ℕ) (key : Option K) (vis : List (VirtualIdentity K))
      → Absent node_id vis
      → IsFor now node_id (grow heap now node_id key vis)
  unfolding grow
  grow-IsFor heap now node_id key vis ha = elim (Bool-cases (can_grow (heap 0) vis)) [
    | inl p ↦ rw p (create-IsFor now node_id key vis [] ha)
    | inr p ↦
        let vis' = (make_room heap now vis).0 in
        rw p (elim (Bool-cases (can_grow (heap 2) vis')) [
          | inl q ↦ rw q (
              create-IsFor now node_id key vis' (make_room heap now vis).1
                ((make_room-Keeps heap now vis).absent node_id ha))
          | inr q ↦ rw q (nothing-IsFor now node_id vis' (make_room heap now vis).1)
        ])
  ]

  -- `get_or_create` keeps one identity for each node, and at most 32 in all.
  pub get_or_create-IsRegistry :
      (heap : ℕ → ℕ) (now node_id : ℕ) (key : Option K) (vis : List (VirtualIdentity K))
      → IsRegistry vis
      → IsRegistry (get_or_create heap now node_id key vis).identities
  unfolding get_or_create
  get_or_create-IsRegistry heap now node_id key vis h =
      go (touch now node_id vis) (touch-Touched now node_id vis)
    where
      go :
          (t : Option (VirtualIdentity K × List (VirtualIdentity K)))
          → Touched now node_id vis t
          → IsRegistry
              (elim t as (λ t. Created K) [
                | some (vi, vis') ↦ record { vi = some vi; identities = vis'; evicted = [] }
                | none ↦ grow heap now node_id key vis
              ]).identities
      go _ (absent ha) = grow-IsRegistry heap now node_id key vis ha h
      go _ (found f vis' hn ht hf ha hd hl) = (hd h.0, omega (arith, h.1, hl))

  get_or_create-IsFor :
      (heap : ℕ → ℕ) (now node_id : ℕ) (key : Option K) (vis : List (VirtualIdentity K))
      → IsFor now node_id (get_or_create heap now node_id key vis)
  unfolding get_or_create
  get_or_create-IsFor heap now node_id key vis =
      go (touch now node_id vis) (touch-Touched now node_id vis)
    where
      go :
          (t : Option (VirtualIdentity K × List (VirtualIdentity K)))
          → Touched now node_id vis t
          → IsFor now node_id (elim t as (λ t. Created K) [
            | some (vi, vis') ↦ record { vi = some vi; identities = vis'; evicted = [] }
            | none ↦ grow heap now node_id key vis
          ])
      go _ (absent ha) = grow-IsFor heap now node_id key vis ha
      go _ (found f vis' hn ht hf ha hd hl) = λ v e. rw (sym (some-injective e)) (hn, ht, hf)

  -- The identity that `get_or_create` returns is the node's, is marked as seen now, and is the one
  -- that is found for the node afterwards.
  pub get_or_create-find :
      (heap : ℕ → ℕ) (now node_id : ℕ) (key : Option K) (vis : List (VirtualIdentity K))
      (v : VirtualIdentity K)
      → (get_or_create heap now node_id key vis).vi ≡ some v
      → (v.mesh_node_id ≡ node_id)
        × (v.last_seen_ms ≡ now)
        × (find node_id (get_or_create heap now node_id key vis).identities ≡ some v)
  get_or_create-find heap now node_id key vis v e = get_or_create-IsFor heap now node_id key vis v e
