-- ===== src/Tcp/Nodes.antt =====
-- The node directory of src/meshtastic/meshtastic_tcp.cpp: `_store_node_info`, `get_node_name` and
-- `_find_or_create_node`.
use bitchat_meshtastic.Prelude.{
  ℕ, ltb, ◌==◌, if◌then◌else◌, Bool, true, false, not, ◌&&◌, Option, none, some, List, [], ◌∷◌,
  ◌++◌, length, take, is_empty,
}
use bitchat_meshtastic.Proto.Parse.{ParsedNodeInfo}

pub record NodeEntry : Type 0 where
  pub id : ℕ
  pub long_name : List ℕ
  pub short_name : List ℕ
  pub last_pos_ms : ℕ
  pub last_tel_ms : ℕ

abbrev pub max_nodes : ℕ
max_nodes = 32

abbrev pub new_node : ℕ → NodeEntry
new_node id = record { id = id; long_name = []; short_name = []; last_pos_ms = 0; last_tel_ms = 0 }

abbrev pub known : ℕ → List NodeEntry → Bool
known id [] = false
known id (e ∷ es) = if e.id == id then true else known id es

-- Changes the first entry of the node.
unfoldable pub on_node : ℕ → (NodeEntry → NodeEntry) → List NodeEntry → List NodeEntry
on_node id change [] = []
on_node id change (e ∷ es) = if e.id == id then change e ∷ es else e ∷ on_node id change es

-- `strncpy` into 40 and 5 bytes, the last of which stay 0.
abbrev pub with_node_names : ParsedNodeInfo → NodeEntry → NodeEntry
with_node_names ni e = record e {
  long_name = take 39 ni.long_name;
  short_name = take 4 ni.short_name;
}

unfoldable pub store_node_info : ParsedNodeInfo → List NodeEntry → List NodeEntry
unfolding on_node
store_node_info ni es =
    if known ni.node_num es
    then on_node ni.node_num (with_node_names ni) es
    else if ltb (length es) max_nodes
    then es ++ (with_node_names ni (new_node ni.node_num) ∷ [])
    else es

unfoldable pub get_node_name : ℕ → List NodeEntry → Option (List ℕ)
get_node_name node_id [] = none
get_node_name node_id (e ∷ es) =
    if (e.id == node_id) && not (is_empty e.long_name)
    then some e.long_name
    else get_node_name node_id es

unfoldable pub find_node : ℕ → List NodeEntry → Option NodeEntry
find_node node_id [] = none
find_node node_id (e ∷ es) = if e.id == node_id then some e else find_node node_id es

-- The entry that the pointer names, if there is one, and the directory.
unfoldable pub find_or_create_node : ℕ → List NodeEntry → Option NodeEntry × List NodeEntry
unfolding find_node
find_or_create_node node_id es = elim (find_node node_id es) [
  | some e ↦ (some e, es)
  | none ↦
      if ltb (length es) max_nodes
      then (some (new_node node_id), es ++ (new_node node_id ∷ []))
      else (none, es)
]
