-- ===== src/Bridge/Manager.antt =====
-- src/bridge/bridge_manager.cpp: the handlers of the two transports and the work of `loop`, as
-- functions from a state to a state and the calls that go out, in order.
pub mod Text
pub mod Begin
pub mod Tick
pub mod Drain
pub mod Echo
pub mod Backoff
use bitchat_meshtastic.Prelude.{
  ℕ, ◌+◌, leb, ◌==◌, if◌then◌else◌, Bool, true, false, not, ◌&&◌, Option, none, some, List, [], ◌∷◌,
  ◌++◌, length, take, is_empty,
}
use bitchat_meshtastic.Config.{mesh_data_max}
use bitchat_meshtastic.Bridge.Message.{BridgeMessage, has_bitchat_fingerprint, hash, empty_message}
use bitchat_meshtastic.Bridge.Dedup.{Dedup, is_duplicate, record_hash}
use bitchat_meshtastic.Bridge.Names.{IdentityMapper, update_mesh_name, update_ble_name}
use bitchat_meshtastic.Bridge.Registry.{VirtualIdentity, Created, get_or_create}
use bitchat_meshtastic.Bridge.Chunks.{split_into_chunks}
use bitchat_meshtastic.Bridge.Manager.Text.{
  format_bridged_text, split_sender, farewell_ble, farewell_mesh,
}

-- The calls of the transports.
pub data Action (K : Type 0) : Type 0 where
  mesh_send_text : List ℕ → Action K
  mesh_send_node_info : ℕ → List ℕ → List ℕ → Action K
  mesh_connect : Action K
  ble_send_text : List ℕ → Action K
  ble_send_text_as : List ℕ → K → Action K
  announce_virtual : K → Option (List ℕ) → Action K

-- `pending` holds the texts of the `_pending_total` chunks; the announce index is `none` for -1.
pub record Bridge (K : Type 0) : Type 0 where
  pub id_mapper : IdentityMapper
  pub virt_registry : List (VirtualIdentity K)
  pub dedup : Dedup
  pub msg_count : ℕ
  pub pending : List (List ℕ)
  pub pending_next : ℕ
  pub pending_send_at_ms : ℕ
  pub mesh_retry_ms : ℕ
  pub mesh_retry_interval : ℕ
  pub mesh_was_connected : Bool
  pub virt_announce_idx : Option ℕ
  pub last_virt_announce_cycle_ms : ℕ
  pub last_virt_announce_step_ms : ℕ
  pub last_mem_check_ms : ℕ

-- What a call reads from outside: `millis()`, the readings of the heap, whether the flash opens,
-- the fingerprint of the master key pair, if there is one, and the key pair it derives for a node.
pub record Env (K : Type 0) : Type 0 where
  pub now : ℕ
  pub heap : ℕ → ℕ
  pub opens : Bool
  pub master : Option (List ℕ)
  pub derive : ℕ → Option K

abbrev pub is_some {ℓ} : {A : Type ℓ} → Option A → Bool
is_some none = false
is_some (some a) = true

module _ {K : Type 0} where
  -- `tmp.text` is cut to 511 bytes; the other fields are 0.
  abbrev pub record_text : ℕ → List ℕ → Bridge K → Bridge K
  record_text now text st = record st {
    dedup = record_hash now (hash (record empty_message { text = take 511 text })) st.dedup;
  }

  unfoldable pub on_identity_evicted : ℕ → VirtualIdentity K → Bridge K → Bridge K × List (Action K)
  on_identity_evicted now vi st =
      let ble_msg = farewell_ble vi.display_name in
      let mesh_msg = farewell_mesh vi.display_name in
      (
        record_text now mesh_msg (record_text now ble_msg st),
        ble_send_text_as ble_msg vi.keypair ∷ mesh_send_text mesh_msg ∷ [],
      )

  unfoldable pub on_evicted : ℕ → List (VirtualIdentity K) → Bridge K → Bridge K × List (Action K)
  unfolding on_identity_evicted
  on_evicted now [] st = (st, [])
  on_evicted now (vi ∷ vis) st =
      let (st', out) = on_identity_evicted now vi st in
      let (st'', out') = on_evicted now vis st' in (st'', out ++ out')

  -- Writes the display name of the node's identity.
  unfoldable pub set_display_name : ℕ → List ℕ → List (VirtualIdentity K) → List (VirtualIdentity K)
  set_display_name node_id name [] = []
  set_display_name node_id name (vi ∷ vis) =
      if vi.mesh_node_id == node_id
      then record vi { display_name = name } ∷ vis
      else vi ∷ set_display_name node_id name vis

  -- Sends as the virtual identity, which is named and announced first if it has no name.
  unfoldable pub send_as :
      ℕ → BridgeMessage → VirtualIdentity K → Bridge K → Bridge K × List (Action K)
  unfolding set_display_name
  send_as now msg vi st =
      let name = take 39 msg.sender.display_name in
      let names = not (is_empty msg.sender.display_name) && is_empty vi.display_name in
      let vis = set_display_name msg.sender.meshtastic_node_id name st.virt_registry in
      let named = if names then record st { virt_registry = vis } else st in
      let sent = record_text now msg.text named in
      (
        record sent { msg_count = sent.msg_count + 1 },
        (if names then announce_virtual vi.keypair (some name) ∷ [] else [])
            ++ (ble_send_text_as msg.text vi.keypair ∷ []),
      )

  -- Sends as the bridge, with a prefix.
  unfoldable pub send_prefixed : ℕ → BridgeMessage → Bridge K → Bridge K × List (Action K)
  send_prefixed now msg st =
      let text = format_bridged_text st.id_mapper msg in
      let sent = record_text now text st in
      (record sent { msg_count = sent.msg_count + 1 }, ble_send_text text ∷ [])

  unfoldable pub send_created :
      ℕ → BridgeMessage → Created K → Bridge K → Bridge K × List (Action K)
  unfolding on_evicted send_as send_prefixed
  send_created now msg created st =
      let (st', out) =
        on_evicted now created.evicted (record st { virt_registry = created.identities }) in
      let (st'', out') : Bridge K × List (Action K) = (elim created.vi [
        | some vi ↦ send_as now msg vi st'
        | none ↦ send_prefixed now msg st'
      ]) in
      (st'', out ++ out')

  unfoldable pub on_meshtastic_message :
      Env K → BridgeMessage → Bridge K → Bridge K × List (Action K)
  unfolding send_created send_prefixed
  on_meshtastic_message env msg st =
      let h = hash msg in
      let node_id = msg.sender.meshtastic_node_id in
      let seen = record st { dedup = record_hash env.now h st.dedup } in
      let known =
        (if not (node_id == 0) && not (is_empty msg.sender.display_name)
          then record seen {
            id_mapper =
                (update_mesh_name env.opens env.now node_id (some msg.sender.display_name) none
                  seen.id_mapper).0;
          }
          else seen) in
      if is_duplicate env.now h st.dedup
      then (st, [])
      else if is_some env.master && not (node_id == 0)
      then send_created env.now msg
          (get_or_create env.heap env.now node_id (env.derive node_id) known.virt_registry) known
      else send_prefixed env.now msg known

  -- Every chunk's hash is recorded, in order.
  unfoldable pub record_chunks : ℕ → List (List ℕ) → Bridge K → Bridge K
  record_chunks now [] st = st
  record_chunks now (text ∷ texts) st = record_chunks now texts (record_text now text st)

  unfoldable pub send_long : ℕ → BridgeMessage → List ℕ → Bridge K → Bridge K
  unfolding record_chunks
  send_long now msg text st =
      let (sender_prefix, body) = split_sender msg.origin text in
      let chunks = split_into_chunks sender_prefix body in
      let sent = record_chunks now chunks st in
      record sent {
        pending = chunks;
        pending_next = 0;
        pending_send_at_ms = now;
        msg_count = sent.msg_count + 1;
      }

  unfoldable pub forward_bitchat : ℕ → BridgeMessage → Bridge K → Bridge K × List (Action K)
  unfolding send_long
  forward_bitchat now msg st =
      let text = format_bridged_text st.id_mapper msg in
      let sent = record_text now text st in
      if leb (length text) mesh_data_max
      then (record sent { msg_count = sent.msg_count + 1 }, mesh_send_text text ∷ [])
      else (send_long now msg text st, [])

  unfoldable pub on_bitchat_message : Env K → BridgeMessage → Bridge K → Bridge K × List (Action K)
  unfolding forward_bitchat
  on_bitchat_message env msg st =
      let h = hash msg in
      let fp = msg.sender.bitchat_fingerprint in
      let seen = record st { dedup = record_hash env.now h st.dedup } in
      let known =
        (if not (is_empty msg.sender.display_name) && has_bitchat_fingerprint fp
          then record seen {
            id_mapper =
                (update_ble_name env.opens env.now fp (some msg.sender.display_name)
                  seen.id_mapper).0;
          }
          else seen) in
      if is_duplicate env.now h st.dedup then (st, []) else forward_bitchat env.now msg known
