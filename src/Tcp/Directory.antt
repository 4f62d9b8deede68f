-- ===== src/Tcp/Directory.antt =====
-- What the node directory answers after a NodeInfo.
use bitchat_meshtastic.Prelude.{
  ℕ, ◌≤◌, ◌<◌, ◌≡◌, ◌≢◌, ◌⊎◌, inl, inr, refl, arith, ltb, ◌==◌, ==-refl, true, false, Bool-cases,
  some, List, [], ◌∷◌, ◌++◌, length, take, length-append,
}
use bitchat_meshtastic.Proto.Parse.{ParsedNodeInfo}
use bitchat_meshtastic.Tcp.Nodes.{
  NodeEntry, new_node, known, on_node, with_node_names, store_node_info, get_node_name,
}

get_node_name-on_node :
    (ni : ParsedNodeInfo) (b : ℕ) (name : List ℕ) (es : List NodeEntry)
    → ni.long_name ≡ b ∷ name
    → known ni.node_num es ≡ true
    → get_node_name ni.node_num (on_node ni.node_num (with_node_names ni) es)
      ≡ some (take 39 (b ∷ name))
unfolding get_node_name on_node
get_node_name-on_node ni b name [] hn h = cc
get_node_name-on_node ni b name (e ∷ es) hn h = elim (Bool-cases (e.id == ni.node_num)) [
  | inl p ↦ rw (p, hn, p) refl
  | inr p ↦ rw (p, p) (get_node_name-on_node ni b name es hn (rw p at h))
]

get_node_name-new :
    (ni : ParsedNodeInfo) (b : ℕ) (name : List ℕ) (es : List NodeEntry)
    → ni.long_name ≡ b ∷ name
    → known ni.node_num es ≡ false
    → get_node_name ni.node_num (es ++ (with_node_names ni (new_node ni.node_num) ∷ []))
      ≡ some (take 39 (b ∷ name))
unfolding get_node_name
get_node_name-new ni b name [] hn h = rw (==-refl ni.node_num, hn) refl
get_node_name-new ni b name (e ∷ es) hn h = elim (Bool-cases (e.id == ni.node_num)) [
  | inl p ↦ absurd (true-ne-false (rw p at h))
  | inr p ↦ rw p (get_node_name-new ni b name es hn (rw p at h))
]
  where
    true-ne-false : true ≢ false
    true-ne-false e = cc

length-on_node :
    (id : ℕ) (change : NodeEntry → NodeEntry) (es : List NodeEntry)
    → length (on_node id change es) ≡ length es
unfolding on_node
length-on_node id change [] = refl
length-on_node id change (e ∷ es) = elim (Bool-cases (e.id == id)) [
  | inl p ↦ rw p refl
  | inr p ↦ rw p (omega (arith, length-on_node id change es))
]

-- A NodeInfo with a long name, of a node that is known or while there is room for it, is what the
-- directory answers for the node, cut to 39 bytes, and the directory stays within 32 entries.
pub get_node_name-store_node_info :
    (ni : ParsedNodeInfo) (b : ℕ) (name : List ℕ) (es : List NodeEntry)
    → ni.long_name ≡ b ∷ name
    → (known ni.node_num es ≡ true) ⊎ (length es < 32)
    → length es ≤ 32
    → (get_node_name ni.node_num (store_node_info ni es) ≡ some (take 39 (b ∷ name)))
      × (length (store_node_info ni es) ≤ 32)
unfolding store_node_info
get_node_name-store_node_info ni b name es hn h hl = elim (Bool-cases (known ni.node_num es)) [
  | inl p ↦ rw p (
    get_node_name-on_node ni b name es hn p,
    omega (arith, length-on_node ni.node_num (with_node_names ni) es),
  )
  | inr p ↦
      let room : ltb (length es) 32 ≡ true = ground arith in
      rw (p, room)
        (
          get_node_name-new ni b name es hn p,
          ground (arith, length-append es (with_node_names ni (new_node ni.node_num) ∷ [])),
        )
]
