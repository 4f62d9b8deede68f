-- ===== src/Bridge/Registry/Distinct.antt =====
-- The registry keeps one identity for each node, and at most 32.
use bitchat_meshtastic.Prelude.{
  ℕ, ◌≤◌, ◌<◌, ◌≢◌, inl, inr, sym, arith, ltb, Bool-cases, Option, none, some, List, [], ◌∷◌, ◌++◌,
  length, All, All-append, length-append, sub32,
}
use bitchat_meshtastic.Bridge.Registry.{
  VirtualIdentity, can_grow, expire_stale, evict_lru, create, make_room, grow,
}
use bitchat_meshtastic.Bridge.Registry.Evict.{evict_lru-Oldest}

module _ {K : Type 0} where
  abbrev pub Absent : ℕ → List (VirtualIdentity K) → Type 0
  Absent node_id vis = All (λ v. v.mesh_node_id ≢ node_id) vis

  abbrev pub DistinctNodes : List (VirtualIdentity K) → Type 0
  DistinctNodes [] = Unit {0}
  DistinctNodes (v ∷ vis) = Absent v.mesh_node_id vis × DistinctNodes vis

  -- One identity for each node, and at most 32
  abbrev pub IsRegistry : List (VirtualIdentity K) → Type 0
  IsRegistry vis = DistinctNodes vis × (length vis ≤ 32)

  All-part :
      (P : VirtualIdentity K → Type 0) (f : List (VirtualIdentity K)) (o : VirtualIdentity K)
      (b : List (VirtualIdentity K))
      → All P (f ++ (o ∷ b))
      → All P (f ++ b)
  All-part P [] o b (ho, h) = h
  All-part P (v ∷ f) o b (hv, h) = (hv, All-part P f o b h)

  DistinctNodes-part :
      (f : List (VirtualIdentity K)) (o : VirtualIdentity K) (b : List (VirtualIdentity K))
      → DistinctNodes (f ++ (o ∷ b))
      → DistinctNodes (f ++ b)
  DistinctNodes-part [] o b (ho, h) = h
  DistinctNodes-part (v ∷ f) o b (hv, h) =
      (All-part (λ w. w.mesh_node_id ≢ v.mesh_node_id) f o b hv, DistinctNodes-part f o b h)

  -- What a smaller vector keeps of the larger one
  pub record Keeps (vis vis' : List (VirtualIdentity K)) : Type 0 where
    pub absent : (node_id : ℕ) → Absent node_id vis → Absent node_id vis'
    pub distinct : DistinctNodes vis → DistinctNodes vis'
    pub shorter : length vis' ≤ length vis

  evict_lru-Keeps : (vis : List (VirtualIdentity K)) → Keeps vis (evict_lru vis).0
  evict_lru-Keeps [] =
      unfold evict_lru in record { absent = λ n h. h; distinct = λ h. h; shorter = omega arith }
  evict_lru-Keeps (vi ∷ vis) =
      let (o, e) = evict_lru-Oldest vi vis in
      rw (e, o.splits)
        (record {
          absent = λ n h. All-part (λ w. w.mesh_node_id ≢ n) o.front o.lru o.back h;
          distinct = λ h. DistinctNodes-part o.front o.lru o.back h;
          shorter =
              omega (arith, length-append o.front o.back, length-append o.front (o.lru ∷ o.back));
        })

  All-expire :
      (P : VirtualIdentity K → Type 0) (t now : ℕ) (vis : List (VirtualIdentity K))
      → All P vis
      → All P (expire_stale t now vis).0
  unfolding expire_stale
  All-expire P t now [] h = tt
  All-expire P t now (v ∷ vis) (hv, h) = elim (Bool-cases (ltb t (sub32 now v.last_seen_ms))) [
    | inl p ↦ rw p (All-expire P t now vis h)
    | inr p ↦ rw p (hv, All-expire P t now vis h)
  ]

  DistinctNodes-expire :
      (t now : ℕ) (vis : List (VirtualIdentity K))
      → DistinctNodes vis
      → DistinctNodes (expire_stale t now vis).0
  unfolding expire_stale
  DistinctNodes-expire t now [] h = tt
  DistinctNodes-expire t now (v ∷ vis) (hv, h) =
      elim (Bool-cases (ltb t (sub32 now v.last_seen_ms))) [
        | inl p ↦ rw p (DistinctNodes-expire t now vis h)
        | inr p ↦ rw p (
          All-expire (λ w. w.mesh_node_id ≢ v.mesh_node_id) t now vis hv,
          DistinctNodes-expire t now vis h,
        )
      ]

  length-expire :
      (t now : ℕ) (vis : List (VirtualIdentity K)) → length (expire_stale t now vis).0 ≤ length vis
  unfolding expire_stale
  length-expire t now [] = omega arith
  length-expire t now (v ∷ vis) = elim (Bool-cases (ltb t (sub32 now v.last_seen_ms))) [
    | inl p ↦ rw p (omega (arith, length-expire t now vis))
    | inr p ↦ rw p (omega (arith, length-expire t now vis))
  ]

  expire_stale-Keeps :
      (t now : ℕ) (vis : List (VirtualIdentity K)) → Keeps vis (expire_stale t now vis).0
  expire_stale-Keeps t now vis = record {
    absent = λ n h. All-expire (λ w. w.mesh_node_id ≢ n) t now vis h;
    distinct = λ h. DistinctNodes-expire t now vis h;
    shorter = length-expire t now vis;
  }

  Keeps-Keeps : (a b d : List (VirtualIdentity K)) → Keeps a b → Keeps b d → Keeps a d
  Keeps-Keeps a b d k l = record {
    absent = λ n h. l.absent n (k.absent n h);
    distinct = λ h. l.distinct (k.distinct h);
    shorter = omega (arith, k.shorter, l.shorter);
  }

  pub make_room-Keeps :
      (heap : ℕ → ℕ) (now : ℕ) (vis : List (VirtualIdentity K))
      → Keeps vis (make_room heap now vis).0
  unfolding make_room
  make_room-Keeps heap now vis =
      let stay = (expire_stale 600000 now vis).0 in
      let k = expire_stale-Keeps 600000 now vis in
      elim (Bool-cases (can_grow (heap 1) stay)) [
        | inl p ↦ rw p k
        | inr p ↦ rw p (Keeps-Keeps vis stay (evict_lru stay).0 k (evict_lru-Keeps stay))
      ]

  DistinctNodes-new :
      (vis : List (VirtualIdentity K)) (v : VirtualIdentity K)
      → Absent v.mesh_node_id vis
      → DistinctNodes vis
      → DistinctNodes (vis ++ (v ∷ []))
  DistinctNodes-new [] v ha hd = (tt, tt)
  DistinctNodes-new (w ∷ vis) v (hw, ha) (hd, hds) = (
    All-append (λ u. u.mesh_node_id ≢ w.mesh_node_id) vis (v ∷ []) hd (λ e. hw (sym e), tt),
    DistinctNodes-new vis v ha hds,
  )

  create-IsRegistry :
      (now node_id : ℕ) (key : Option K) (vis evicted : List (VirtualIdentity K))
      → Absent node_id vis
      → DistinctNodes vis
      → length vis < 32
      → IsRegistry (create now node_id key vis evicted).identities
  unfolding create
  create-IsRegistry now node_id none vis evicted ha hd hl = (hd, omega arith)
  create-IsRegistry now node_id (some key) vis evicted ha hd hl =
      let v : VirtualIdentity K = record {
        mesh_node_id = node_id;
        keypair = key;
        last_seen_ms = now;
        display_name = [];
      } in
      (DistinctNodes-new vis v ha hd, omega (arith, length-append vis (v ∷ [])))

  pub grow-IsRegistry :
      (heap : ℕ → ℕ) (now node_id : ℕ) (key : Option K) (vis : List (VirtualIdentity K))
      → Absent node_id vis
      → IsRegistry vis
      → IsRegistry (grow heap now node_id key vis).identities
  unfolding grow
  grow-IsRegistry heap now node_id key vis ha (hd, hl) = elim (Bool-cases (can_grow (heap 0) vis)) [
    | inl p ↦ rw p (create-IsRegistry now node_id key vis [] ha hd (ground arith))
    | inr p ↦
        let k = make_room-Keeps heap now vis in
        let vis' = (make_room heap now vis).0 in
        rw p (elim (Bool-cases (can_grow (heap 2) vis')) [
          | inl q ↦ rw q (
              create-IsRegistry now node_id key vis' (make_room heap now vis).1
                (k.absent node_id ha) (k.distinct hd) (ground arith))
          | inr q ↦ rw q (k.distinct hd, omega (arith, k.shorter))
        ])
  ]
