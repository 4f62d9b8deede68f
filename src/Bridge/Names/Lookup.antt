-- ===== src/Bridge/Names/Lookup.antt =====
-- What is looked up after an update.
use bitchat_meshtastic.Prelude.{
  ℕ, zero, suc, ◌≤◌, ◌<◌, ◌≡◌, ◌≢◌, ◌⊎◌, inl, inr, refl, sym, arith, ◌==◌, ==-refl, ==-of_ne,
  eq_of-==, Bool, true, false, Option, none, some, Option-cases, Bool-cases, List, [], ◌∷◌, length,
  take, if◌then◌else◌,
}
use bitchat_meshtastic.Bridge.Names.{
  MeshEntry, IdentityMapper, with_names, find_mesh_name, get_mesh_name, put_mesh_name, save,
  save_if_needed, update_mesh_name,
}

-- A save changes neither table.
save_if_needed-names :
    (opens : Bool) (now : ℕ) (m : IdentityMapper)
    → (save_if_needed opens now m).0.mesh_names ≡ m.mesh_names
unfolding save_if_needed save
save_if_needed-names opens now m = ground arith

-- Whether the node has an entry.
unfoldable pub has_node : ℕ → List MeshEntry → Bool
has_node node_id [] = false
has_node node_id (e ∷ es) = if e.node_id == node_id then true else has_node node_id es

find-put_self :
    (room node_id : ℕ) (b : ℕ) (name : List ℕ) (short : Option (List ℕ)) (es : List MeshEntry)
    → (has_node node_id es ≡ true) ⊎ (length es < room)
    → (es' : List MeshEntry) × (put_mesh_name room node_id (some (b ∷ name)) short es ≡ some es')
      × (find_mesh_name node_id es' ≡ some (take 39 (b ∷ name)))
unfolding put_mesh_name find_mesh_name has_node
find-put_self zero node_id b name short [] h = absurd (elim h [ inl p ↦ cc | inr p ↦ omega arith ])
find-put_self (suc room) node_id b name short [] h = (
  with_names (some (b ∷ name)) short (record { node_id = node_id; long_name = []; short_name = [] })
      ∷ [],
  refl,
  rw (==-refl node_id) refl,
)
find-put_self zero node_id b name short (e ∷ es) h = elim (Bool-cases (e.node_id == node_id)) [
  | inl p ↦ (with_names (some (b ∷ name)) short e ∷ es, rw p refl, rw p refl)
  | inr p ↦
      let (es', put, found) =
        find-put_self zero node_id b name short es
          (elim h [ inl q ↦ inl (rw p at q) | inr q ↦ absurd (omega arith) ]) in
      (e ∷ es', rw (p, put) refl, rw p found)
]
find-put_self (suc room) node_id b name short (e ∷ es) h =
    elim (Bool-cases (e.node_id == node_id)) [
      | inl p ↦ (with_names (some (b ∷ name)) short e ∷ es, rw p refl, rw p refl)
      | inr p ↦
          let (es', put, found) =
            find-put_self room node_id b name short es
              (elim h [ inl q ↦ inl (rw p at q) | inr q ↦ inr (omega arith) ]) in
          (e ∷ es', rw (p, put) refl, rw p found)
    ]

-- An update with a long name that is not empty, for a node that has an entry or while there is
-- room for one, is what the next look-up of that node finds, cut to 39 bytes.
pub get_mesh_name-update_mesh_name :
    (opens : Bool) (now node_id b : ℕ) (name : List ℕ) (short : Option (List ℕ))
    (m : IdentityMapper)
    → (has_node node_id m.mesh_names ≡ true) ⊎ (length m.mesh_names < 16)
    → get_mesh_name node_id (update_mesh_name opens now node_id (some (b ∷ name)) short m).0
      ≡ some (take 39 (b ∷ name))
unfolding update_mesh_name
get_mesh_name-update_mesh_name opens now node_id b name short m h =
    let (es', put, found) = find-put_self 16 node_id b name short m.mesh_names h in
    rw (put, update_mesh_name)
      (rw (save_if_needed-names opens now (record m { mesh_names = es'; dirty = true })) found)

some-injective : {A : Type 0} {x y : A} → some x ≡ some y → x ≡ y
some-injective e = cc

none-ne-some : {A : Type 0} {x : A} → none ≢ some x
none-ne-some e = cc

-- The step of `put_mesh_name` past an entry of another node.
put_past :
    (room node_id : ℕ) (long short : Option (List ℕ)) (e : MeshEntry) (es es' : List MeshEntry)
    → (e.node_id == node_id) ≡ false
    → put_mesh_name room node_id long short (e ∷ es) ≡ some es'
    → (room' : ℕ) × (es'' : List MeshEntry) × (put_mesh_name room' node_id long short es
        ≡ some es'')
      × (es' ≡ e ∷ es'')
      × (room ≤ suc room')
      × (room' ≤ room)
      × ((0 < room) → suc room' ≤ room)
unfolding put_mesh_name
put_past zero node_id long short e es es' q p =
    elim (Option-cases (put_mesh_name zero node_id long short es)) [
      | inl n ↦ absurd (none-ne-some (rw (q, n) at p))
      | inr (es'', s) ↦ (
        zero,
        es'',
        s,
        sym (some-injective (rw (q, s) at p)),
        omega arith,
        omega arith,
        λ h. omega arith,
      )
    ]
put_past (suc room) node_id long short e es es' q p =
    elim (Option-cases (put_mesh_name room node_id long short es)) [
      | inl n ↦ absurd (none-ne-some (rw (q, n) at p))
      | inr (es'', s) ↦ (
        room,
        es'',
        s,
        sym (some-injective (rw (q, s) at p)),
        omega arith,
        omega arith,
        λ h. omega arith,
      )
    ]

put_here :
    (room node_id : ℕ) (long short : Option (List ℕ)) (e : MeshEntry) (es es' : List MeshEntry)
    → (e.node_id == node_id) ≡ true
    → put_mesh_name room node_id long short (e ∷ es) ≡ some es'
    → es' ≡ with_names long short e ∷ es
unfolding put_mesh_name
put_here zero node_id long short e es es' q p = sym (some-injective (rw q at p))
put_here (suc room) node_id long short e es es' q p = sym (some-injective (rw q at p))

put_full :
    (node_id : ℕ) (long short : Option (List ℕ)) (es' : List MeshEntry)
    → put_mesh_name zero node_id long short [] ≢ some es'
unfolding put_mesh_name
put_full node_id long short es' = none-ne-some

put_new :
    (room node_id : ℕ) (long short : Option (List ℕ)) (es' : List MeshEntry)
    → put_mesh_name (suc room) node_id long short [] ≡ some es'
    → with_names long short (record { node_id = node_id; long_name = []; short_name = [] }) ∷ []
      ≡ es'
unfolding put_mesh_name
put_new room node_id long short es' p = some-injective p

find-put_other :
    (room node_id other : ℕ) (long short : Option (List ℕ)) (es es' : List MeshEntry)
    → node_id ≢ other
    → put_mesh_name room node_id long short es ≡ some es'
    → find_mesh_name other es' ≡ find_mesh_name other es
unfolding find_mesh_name
find-put_other zero node_id other long short [] es' h p = absurd (put_full node_id long short es' p)
find-put_other (suc room) node_id other long short [] es' h p =
    rw (sym (put_new room node_id long short es' p), ==-of_ne node_id other h) refl
find-put_other room node_id other long short (e ∷ es) es' h p =
    elim (Bool-cases (e.node_id == node_id)) [
      | inl q ↦
          let away : (e.node_id == other) ≡ false =
            rw (eq_of-== e.node_id node_id q) (==-of_ne node_id other h) in
          rw (put_here room node_id long short e es es' q p, away) refl
      | inr q ↦
          let (room', es'', put, split, _, _, _) = put_past room node_id long short e es es' q p in
          rw (split, find-put_other room' node_id other long short es es'' h put) refl
    ]

length-put :
    (room node_id : ℕ) (long short : Option (List ℕ)) (es es' : List MeshEntry)
    → length es ≤ room
    → put_mesh_name room node_id long short es ≡ some es'
    → length es' ≤ room
length-put zero node_id long short [] es' h p = absurd (put_full node_id long short es' p)
length-put (suc room) node_id long short [] es' h p =
    rw (sym (put_new room node_id long short es' p)) (omega arith)
length-put room node_id long short (e ∷ es) es' h p = elim (Bool-cases (e.node_id == node_id)) [
  | inl q ↦ rw (put_here room node_id long short e es es' q p) h
  | inr q ↦
      let (room', es'', put, split, le, le', lt) = put_past room node_id long short e es es' q p in
      rw split (
        omega (
          arith,
          length-put room' node_id long short es es'' (omega (arith, lt)) put,
          lt (omega arith),
        ))
]

-- An update leaves the names of the other nodes as they were, and keeps the table within 16
-- entries.
pub update_mesh_name_others :
    (opens : Bool) (now node_id other : ℕ) (long short : Option (List ℕ)) (m : IdentityMapper)
    → node_id ≢ other
    → length m.mesh_names ≤ 16
    → let m' = (update_mesh_name opens now node_id long short m).0 in
      (get_mesh_name other m' ≡ get_mesh_name other m) × (length m'.mesh_names ≤ 16)
unfolding update_mesh_name
update_mesh_name_others opens now node_id other long short m h hl =
    elim (Option-cases (put_mesh_name 16 node_id long short m.mesh_names)) [
      | inl n ↦ (rw (n, update_mesh_name) refl, rw (n, update_mesh_name) hl)
      | inr (es', put) ↦
          let same = save_if_needed-names opens now (record m { mesh_names = es'; dirty = true }) in
          (
            rw (put, update_mesh_name)
                (rw same (find-put_other 16 node_id other long short m.mesh_names es' h put)),
            rw (put, update_mesh_name)
                (rw same (length-put 16 node_id long short m.mesh_names es' hl put)),
          )
    ]
