-- ===== src/Bridge/Manager/Tick.antt =====
-- The part of `loop` that follows the loops of the two transports.
use bitchat_meshtastic.Prelude.{
  ℕ, zero, suc, ◌*◌, ◌%◌, ◌^◌, ltb, leb, ◌==◌, if◌then◌else◌, Bool, true, false, not, Option, none,
  some, List, [], ◌∷◌, ◌++◌, length, get_or, sub32, add32, is_empty, from_le32,
}
use Prim.Native.Nat.{bit_xor}
use bitchat_meshtastic.Config.{
  mesh_broadcast, bridge_name, bridge_short_name, bridge_chunk_delay_ms,
  bitchat_announce_interval_ms, virtual_announce_stagger_ms, virt_id_memory_check_ms,
}
use bitchat_meshtastic.Bridge.Registry.{VirtualIdentity, check_memory_pressure}
use bitchat_meshtastic.Bridge.Manager.{
  Action, mesh_send_text, mesh_send_node_info, mesh_connect, announce_virtual, Bridge, Env,
  on_evicted,
}

-- `_publish_bridge_node_info`: the node number is made of the first four bytes of the fingerprint.
unfoldable pub bridge_node_num : List ℕ → ℕ
bridge_node_num fp =
    let masked =
      from_le32 (get_or fp 0 0) (get_or fp 1 0) (get_or fp 2 0) (get_or fp 3 0) % 2 ^ 31 in
    let num = (if masked == 0 then 1 else masked) in
    if num == mesh_broadcast then bit_xor num 0x12345678 else num

-- The retry interval after an attempt to connect.
unfoldable pub next_interval : Bool → ℕ → ℕ
next_interval true interval = 5000
next_interval false interval = if ltb interval 300000 then interval * 2 else 300000

module _ {K : Type 0} where
  unfoldable pub publish_bridge_node_info : Option (List ℕ) → List (Action K)
  unfolding bridge_node_num
  publish_bridge_node_info none = []
  publish_bridge_node_info (some fp) =
      mesh_send_node_info (bridge_node_num fp) bridge_name bridge_short_name ∷ []

  -- The cycle begins when the interval has elapsed; the first announcement goes out at once.
  unfoldable pub begin_cycle : ℕ → Bridge K → Bridge K
  begin_cycle now st = elim st.virt_announce_idx [
    | some i ↦ st
    | none ↦
        if ltb bitchat_announce_interval_ms (sub32 now st.last_virt_announce_cycle_ms)
        then record st {
          virt_announce_idx = some 0;
          last_virt_announce_cycle_ms = now;
          last_virt_announce_step_ms = 0;
        }
        else st
  ]

  unfoldable pub nth : ℕ → List (VirtualIdentity K) → Option (VirtualIdentity K)
  nth i [] = none
  nth zero (vi ∷ vis) = some vi
  nth (suc i) (vi ∷ vis) = nth i vis

  unfoldable pub announce_step : ℕ → Bridge K → Bridge K × List (Action K)
  unfolding nth
  announce_step now st = elim st.virt_announce_idx [
    | none ↦ (st, [])
    | some i ↦
        if ltb (sub32 now st.last_virt_announce_step_ms) virtual_announce_stagger_ms
        then (st, [])
        else (elim (nth i st.virt_registry) [
          | none ↦ (record st { virt_announce_idx = none }, [])
          | some vi ↦ (
            record st { virt_announce_idx = some (suc i); last_virt_announce_step_ms = now },
            announce_virtual vi.keypair
                  (if is_empty vi.display_name then none else some vi.display_name)
                ∷ [],
          )
        ])
  ]

  unfoldable pub announce : Env K → Bridge K → Bridge K × List (Action K)
  unfolding begin_cycle announce_step
  announce env st = elim env.master [
    | none ↦ (st, [])
    | some fp ↦ announce_step env.now (begin_cycle env.now st)
  ]

  -- The heap is checked every 10 seconds; those that are shed are said farewell to.
  unfoldable pub check_memory : Env K → Bridge K → Bridge K × List (Action K)
  check_memory env st =
      let (left, evicted) = check_memory_pressure env.heap st.virt_registry in
      if ltb virt_id_memory_check_ms (sub32 env.now st.last_mem_check_ms)
      then on_evicted env.now evicted
          (record st { last_mem_check_ms = env.now; virt_registry = left })
      else (st, [])

  -- `is_up` is `_mesh.is_connected()`, and `connects` what `_mesh.connect()` returns.
  unfoldable pub reconnect : Env K → Bool → Bool → Bridge K → Bridge K × List (Action K)
  unfolding publish_bridge_node_info next_interval
  reconnect env is_up connects st =
      let down = record st { mesh_was_connected = false } in
      let up = record st { mesh_retry_interval = 5000; mesh_was_connected = true } in
      if is_up
      then (up, if st.mesh_was_connected then [] else publish_bridge_node_info env.master)
      else if ltb st.mesh_retry_interval (sub32 env.now st.mesh_retry_ms)
      then (
        record down {
          mesh_retry_ms = env.now;
          mesh_retry_interval = next_interval connects st.mesh_retry_interval;
        },
        mesh_connect ∷ [],
      )
      else (down, [])

  unfoldable pub drain_pending_chunks : ℕ → Bool → Bridge K → Bridge K × List (Action K)
  drain_pending_chunks now is_up st =
      if leb (length st.pending) st.pending_next
      then (st, [])
      else if leb (2 ^ 31) (sub32 now st.pending_send_at_ms)
      then (st, [])
      else if not is_up
      then (record st { pending_next = length st.pending }, [])
      else (
        record st {
          pending_next = suc st.pending_next;
          pending_send_at_ms = add32 now bridge_chunk_delay_ms;
        },
        mesh_send_text (get_or st.pending st.pending_next []) ∷ [],
      )

  -- All of `loop` behind the loops of the transports; `up_later` is `_mesh.is_connected()` as
  -- `_drain_pending_chunks` reads it.
  unfoldable pub tick : Env K → Bool → Bool → Bool → Bridge K → Bridge K × List (Action K)
  unfolding announce check_memory reconnect drain_pending_chunks
  tick env is_up connects up_later st =
      let (st₁, out₁) = announce env st in
      let (st₂, out₂) = check_memory env st₁ in
      let (st₃, out₃) = reconnect env is_up connects st₂ in
      let (st₄, out₄) = drain_pending_chunks env.now up_later st₃ in
      (st₄, out₁ ++ (out₂ ++ (out₃ ++ out₄)))
