-- ===== src/Bridge/Names.antt =====
-- src/bridge/identity_mapper.cpp: the cache of names, for Meshtastic nodes and for Bitchat peers.
pub mod Lookup
use bitchat_meshtastic.Prelude.{
  ℕ, zero, suc, ◌+◌, ltb, leb, ◌==◌, if◌then◌else◌, Bool, true, false, not, ◌&&◌, ◌||◌, Option,
  none, some, List, [], ◌∷◌, ◌++◌, length, take, drop, replicate, sub32, is_empty, c_str, codes,
  hex_word,
}
use bitchat_meshtastic.Config.{max_identity_entries, identity_save_debounce_ms}

pub record MeshEntry : Type 0 where
  pub node_id : ℕ
  pub long_name : List ℕ
  pub short_name : List ℕ

pub record BleEntry : Type 0 where
  pub fingerprint : List ℕ
  pub nickname : List ℕ

-- The entries in use stand in the lists, so `_mesh_count` and `_ble_count` are their lengths.
pub record IdentityMapper : Type 0 where
  pub mesh_names : List MeshEntry
  pub ble_names : List BleEntry
  pub last_save_ms : ℕ
  pub dirty : Bool

-- What `save` writes to the flash: the two blobs, with their counts.
pub record Saved : Type 0 where
  pub mesh : List MeshEntry
  pub ble : List BleEntry

abbrev pub same_bytes : List ℕ → List ℕ → Bool
same_bytes [] [] = true
same_bytes [] (b ∷ ys) = false
same_bytes (a ∷ xs) [] = false
same_bytes (a ∷ xs) (b ∷ ys) = (a == b) && same_bytes xs ys

unfoldable pub find_mesh_name : ℕ → List MeshEntry → Option (List ℕ)
find_mesh_name node_id [] = none
find_mesh_name node_id (e ∷ es) =
    if (e.node_id == node_id) && not (is_empty e.long_name)
    then some e.long_name
    else find_mesh_name node_id es

abbrev pub get_mesh_name : ℕ → IdentityMapper → Option (List ℕ)
get_mesh_name node_id m = find_mesh_name node_id m.mesh_names

-- The fingerprint given is at least 8 bytes; `memcmp` compares 8.
unfoldable pub find_ble_name : List ℕ → List BleEntry → Option (List ℕ)
find_ble_name fp [] = none
find_ble_name fp (e ∷ es) =
    if same_bytes e.fingerprint (take 8 fp) && not (is_empty e.nickname)
    then some e.nickname
    else find_ble_name fp es

abbrev pub get_ble_name : List ℕ → IdentityMapper → Option (List ℕ)
get_ble_name fp m = find_ble_name fp m.ble_names

-- `strncpy` into a buffer whose last byte stays 0; a null pointer leaves what was there.
abbrev pub copy_name : ℕ → Option (List ℕ) → List ℕ → List ℕ
copy_name n none old = old
copy_name n (some name) old = take n name

abbrev pub with_names : Option (List ℕ) → Option (List ℕ) → MeshEntry → MeshEntry
with_names long short e = record e {
  long_name = copy_name 39 long e.long_name;
  short_name = copy_name 4 short e.short_name;
}

-- The first entry of the node is updated, or a new one added while there is room. The result
-- says whether anything was written.
unfoldable pub put_mesh_name :
    ℕ → ℕ → Option (List ℕ) → Option (List ℕ) → List MeshEntry → Option (List MeshEntry)
put_mesh_name zero node_id long short [] = none
put_mesh_name (suc room) node_id long short [] =
    some
      (with_names long short (record { node_id = node_id; long_name = []; short_name = [] }) ∷ [])
put_mesh_name room node_id long short (e ∷ es) =
    let rest = put_mesh_name (pred room) node_id long short es in
    if e.node_id == node_id
    then some (with_names long short e ∷ es)
    else (elim rest [ none ↦ none | some es' ↦ some (e ∷ es') ])
  where
    pred : ℕ → ℕ
    pred zero = zero
    pred (suc n) = n

abbrev pub with_nickname : Option (List ℕ) → BleEntry → BleEntry
with_nickname nickname e = record e { nickname = copy_name 32 nickname e.nickname }

unfoldable pub put_ble_name : ℕ → List ℕ → Option (List ℕ) → List BleEntry → Option (List BleEntry)
put_ble_name zero fp nickname [] = none
put_ble_name (suc room) fp nickname [] =
    some (with_nickname nickname (record { fingerprint = take 8 fp; nickname = [] }) ∷ [])
put_ble_name room fp nickname (e ∷ es) =
    let rest = put_ble_name (pred room) fp nickname es in
    if same_bytes e.fingerprint (take 8 fp)
    then some (with_nickname nickname e ∷ es)
    else (elim rest [ none ↦ none | some es' ↦ some (e ∷ es') ])
  where
    pred : ℕ → ℕ
    pred zero = zero
    pred (suc n) = n

-- `opens` says whether `nvs_open` succeeds, `now` is `millis()`.
unfoldable pub save : Bool → ℕ → IdentityMapper → IdentityMapper × Option Saved
save opens now m = if not m.dirty || not opens then (m, none) else (
  record m { dirty = false; last_save_ms = now },
  some (record { mesh = m.mesh_names; ble = m.ble_names }),
)

unfoldable pub save_if_needed : Bool → ℕ → IdentityMapper → IdentityMapper × Option Saved
unfolding save
save_if_needed opens now m =
    if not m.dirty
    then (m, none)
    else if not (m.last_save_ms == 0) && ltb (sub32 now m.last_save_ms) identity_save_debounce_ms
    then (m, none)
    else save opens now m

unfoldable pub update_mesh_name :
    Bool
    → ℕ
    → ℕ
    → Option (List ℕ)
    → Option (List ℕ)
    → IdentityMapper
    → IdentityMapper × Option Saved
unfolding put_mesh_name save_if_needed
update_mesh_name opens now node_id long short m =
    elim (put_mesh_name max_identity_entries node_id long short m.mesh_names) [
      | none ↦ (m, none)
      | some es ↦ save_if_needed opens now (record m { mesh_names = es; dirty = true })
    ]

unfoldable pub update_ble_name :
    Bool → ℕ → List ℕ → Option (List ℕ) → IdentityMapper → IdentityMapper × Option Saved
unfolding put_ble_name save_if_needed
update_ble_name opens now fp nickname m =
    elim (put_ble_name max_identity_entries fp nickname m.ble_names) [
      | none ↦ (m, none)
      | some es ↦ save_if_needed opens now (record m { ble_names = es; dirty = true })
    ]

-- What the flash holds: each read may fail, and a blob is read for the number of entries that the
-- count gives.
pub record Flash : Type 0 where
  pub mesh_n : Option ℕ
  pub mesh : ℕ → Option (List MeshEntry)
  pub ble_n : Option ℕ
  pub ble : ℕ → Option (List BleEntry)

abbrev load_entries {ℓ} : {A : Type ℓ} → Option ℕ → (ℕ → Option (List A)) → List A → List A
load_entries none blob old = old
load_entries (some count) blob old =
    if leb count max_identity_entries
    then (elim (blob count) [ none ↦ old | some es ↦ es ])
    else old

-- `none` where `nvs_open` fails.
unfoldable pub load : Option Flash → IdentityMapper → IdentityMapper
load none m = m
load (some flash) m = record m {
  mesh_names = load_entries flash.mesh_n flash.mesh m.mesh_names;
  ble_names = load_entries flash.ble_n flash.ble m.ble_names;
}

-- The names that the two `_to_` functions put into their result, which is 0 elsewhere.
unfoldable pub mesh_to_bitchat : ℕ → IdentityMapper → List ℕ
unfolding find_mesh_name
mesh_to_bitchat node_id m = elim (get_mesh_name node_id m) [
  | none ↦ codes "mesh_" ++ hex_word node_id
  | some name ↦ take 31 name
]

-- The short name and the long name.
unfoldable pub bitchat_to_mesh : List ℕ → IdentityMapper → List ℕ × List ℕ
unfolding find_ble_name
bitchat_to_mesh fp m = elim (get_ble_name fp m) [
  | none ↦ (codes "BC", codes "Bitchat User")
  | some name ↦ (take 4 name, take 39 name)
]
