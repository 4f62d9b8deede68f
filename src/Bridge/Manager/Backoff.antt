-- ===== src/Bridge/Manager/Backoff.antt =====
-- The retry interval, and the node number of the bridge.
use bitchat_meshtastic.Prelude.{
  ℕ, ◌%◌, ◌^◌, ◌≤◌, ◌<◌, ◌≡◌, ◌⊎◌, inl, inr, refl, arith, ltb, ◌==◌, if◌then◌else◌, Bool, true,
  false, Bool-cases, List, get_or, from_le32, sub32,
}
use Prim.Native.Nat.{bit_xor}
use bitchat_meshtastic.Bridge.Manager.{Bridge, Env}
use bitchat_meshtastic.Bridge.Manager.Tick.{bridge_node_num, next_interval, reconnect}

-- The intervals that occur: 5 seconds doubled up to six times, and 5 minutes.
abbrev pub IsInterval : ℕ → Type 0
IsInterval n =
    (n ≡ 5000)
    ⊎ (n ≡ 10000)
    ⊎ (n ≡ 20000)
    ⊎ (n ≡ 40000)
    ⊎ (n ≡ 80000)
    ⊎ (n ≡ 160000)
    ⊎ (n ≡ 320000)
    ⊎ (n ≡ 300000)

next_interval-IsInterval :
    (connects : Bool) (n : ℕ) → IsInterval n → IsInterval (next_interval connects n)
unfolding next_interval
next_interval-IsInterval true n h = inl refl
next_interval-IsInterval false n h = ground arith

module _ {K : Type 0} where
  -- The retry interval stays one of 5, 10, 20, 40, 80, 160, 320 and 300 seconds, whatever the
  -- connection does.
  pub reconnect-IsInterval :
      (env : Env K) (is_up connects : Bool) (st : Bridge K)
      → IsInterval st.mesh_retry_interval
      → IsInterval (reconnect env is_up connects st).0.mesh_retry_interval
  unfolding reconnect
  reconnect-IsInterval env true connects st h = inl refl
  reconnect-IsInterval env false connects st h =
      elim (Bool-cases (ltb st.mesh_retry_interval (sub32 env.now st.mesh_retry_ms))) [
        | inl p ↦ rw p (next_interval-IsInterval connects st.mesh_retry_interval h)
        | inr p ↦ rw p h
      ]

-- The node number that the bridge takes is neither 0 nor broadcast, and its high bit is clear.
pub bridge_node_num_bounds :
    (fp : List ℕ) → (1 ≤ bridge_node_num fp) × (bridge_node_num fp < 2 ^ 31)
unfolding bridge_node_num
bridge_node_num_bounds fp =
    bounds (from_le32 (get_or fp 0 0) (get_or fp 1 0) (get_or fp 2 0) (get_or fp 3 0) % 2 ^ 31)
      (omega arith)
  where
    bounds :
        (masked : ℕ)
        → masked < 2 ^ 31
        → let num = (if masked == 0 then 1 else masked) in
          let n = (if num == 0xFFFFFFFF then bit_xor num 0x12345678 else num) in
          (1 ≤ n) × (n < 2 ^ 31)
    bounds masked h = ground arith
