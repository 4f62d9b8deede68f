-- ===== src/Bridge/Manager/Begin.antt =====
-- `BridgeManager::begin` of src/bridge/bridge_manager.cpp. The callbacks that it wires are the handlers themselves.
use bitchat_meshtastic.Prelude.{Bool, true, false, if◌then◌else◌, Option, List, [], ◌∷◌}
use bitchat_meshtastic.Bridge.Names.{Flash, load}
use bitchat_meshtastic.Bridge.Manager.{Action, mesh_connect, Bridge}

module _ {K : Type 0} where
  -- `started` is what `begin` of the Bluetooth class returns. A connection that fails is tried again by `loop`.
  unfoldable pub begin : Option Flash → Bool → Bridge K → Bridge K × List (Action K) × Bool
  unfolding load
  begin flash started st =
      let loaded = record st { id_mapper = load flash st.id_mapper } in
      if started then (loaded, mesh_connect ∷ [], true) else (loaded, [], false)
