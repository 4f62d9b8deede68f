-- ===== src/Crossing/Back.antt =====
-- A text on its way from the Meshtastic node through src/bridge/bridge_manager.cpp to a Bitchat peer.
use bitchat_meshtastic.Prelude.{
  ℕ, ◌<◌, ◌≡◌, ◌≢◌, refl, sym, ap, ◌∙◌, ◌==◌, true, false, not, ◌&&◌, Bool, Bool-cases, inl, inr,
  some, List, [], ◌∷◌, ◌++◌, length, get_or, take, is_empty, if◌then◌else◌, append_assoc, c_str,
  IsU32, none, ◌^◌,
}
use bitchat_meshtastic.Proto.Loop.{done}
use bitchat_meshtastic.Proto.Report.{FloatPrinter}
use bitchat_meshtastic.Bridge.Message.{BridgeMessage, hash}
use bitchat_meshtastic.Bridge.Dedup.{is_duplicate, record_hash}
use bitchat_meshtastic.Bridge.Names.{update_mesh_name}
use bitchat_meshtastic.Bridge.Registry.{VirtualIdentity, Created, get_or_create}
use bitchat_meshtastic.Bridge.Manager.{
  Action, ble_send_text_as, announce_virtual, Bridge, Env, on_evicted, send_as, send_created,
  on_meshtastic_message, is_some,
}
use bitchat_meshtastic.Tcp.{Tcp, message}
use bitchat_meshtastic.Tcp.Receive.{handle_from_radio}
use bitchat_meshtastic.Tcp.Texts.{
  text_frame, forwarded_text, is_known_as_own, handle_from_radio-text,
}
use bitchat_meshtastic.Ble.Relay.{Relay}
use bitchat_meshtastic.Ble.Identity.{BitchatKeypair}
use bitchat_meshtastic.Ble.Peers.{PeerSession, zero_peer, find_peer}
use bitchat_meshtastic.Ble.Send.{Radio, Own, cut_text}
use bitchat_meshtastic.Ble.Send.Sizes.{Signs, IsIdentity}
use bitchat_meshtastic.Ble.Incoming.{BitchatBle}
use bitchat_meshtastic.Ble.Incoming.Signed.{TextHeard, text_as-heard}

second_of :
    {A : Type 0} (b c : Bool) (x y z : A)
    → b ≡ false
    → c ≡ true
    → (if b then x else if c then y else z) ≡ y
second_of b c x y z hb hc = rw (hb, hc) refl

module _ {K : Type 0} where
  -- The last call sends the text as the identity.
  abbrev SendsAs : Bridge K × List (Action K) → List ℕ → K → Type 0
  SendsAs r text key =
      (st' : Bridge K) × (before : List (Action K)) × (r
        ≡ (st', before ++ (ble_send_text_as text key ∷ [])))

  send_created-SendsAs :
      (now : ℕ) (msg : BridgeMessage) (created : Created K) (vi : VirtualIdentity K) (st : Bridge K)
      → created.vi ≡ some vi
      → SendsAs (send_created now msg created st) msg.text vi.keypair
  unfolding send_created send_as
  send_created-SendsAs now msg created vi st e =
      let (st', out) =
        on_evicted now created.evicted (record st { virt_registry = created.identities }) in
      let names = not (is_empty msg.sender.display_name) && is_empty vi.display_name in
      let announced : List (Action K) =
        (if names
          then announce_virtual vi.keypair (some (take 39 msg.sender.display_name)) ∷ []
          else []) in
      (
        (send_as now msg vi st').0,
        out ++ announced,
        rw e (
            ap (λ outs. ((send_as now msg vi st').0, outs))
              (sym (append_assoc out announced (ble_send_text_as msg.text vi.keypair ∷ [])))),
      )

  abbrev mesh_noted : Env K → BridgeMessage → Bridge K → Bridge K
  mesh_noted env msg st =
      let node_id = msg.sender.meshtastic_node_id in
      let seen = record st { dedup = record_hash env.now (hash msg) st.dedup } in
      if not (node_id == 0) && not (is_empty msg.sender.display_name)
      then record seen {
        id_mapper =
            (update_mesh_name env.opens env.now node_id (some msg.sender.display_name) none
              seen.id_mapper).0;
      }
      else seen

  mesh_noted-registry :
      (env : Env K) (msg : BridgeMessage) (st : Bridge K)
      → (mesh_noted env msg st).virt_registry ≡ st.virt_registry
  mesh_noted-registry env msg st =
      elim (Bool-cases
        (not (msg.sender.meshtastic_node_id == 0) && not (is_empty msg.sender.display_name))) [
          | inl named ↦ rw named refl
          | inr unnamed ↦ rw unnamed refl
        ]

  on_meshtastic_message-SendsAs :
      (env : Env K) (msg : BridgeMessage) (st : Bridge K) (vi : VirtualIdentity K) (fp : List ℕ)
      → is_duplicate env.now (hash msg) st.dedup ≡ false
      → env.master ≡ some fp
      → (msg.sender.meshtastic_node_id == 0) ≡ false
      → (get_or_create env.heap env.now msg.sender.meshtastic_node_id
          (env.derive msg.sender.meshtastic_node_id)
          st.virt_registry).vi
        ≡ some vi
      → SendsAs (on_meshtastic_message env msg st) msg.text vi.keypair
  unfolding on_meshtastic_message
  on_meshtastic_message-SendsAs env msg st vi fp new master node found =
      let id = msg.sender.meshtastic_node_id in
      let known = mesh_noted env msg st in
      let (st', before, e) =
        send_created-SendsAs env.now msg
          (get_or_create env.heap env.now id (env.derive id) known.virt_registry) vi known
          (ap (λ vis. (get_or_create env.heap env.now id (env.derive id) vis).vi)
              (mesh_noted-registry env msg st)
            ∙ found) in
      let identified : (is_some env.master && not (id == 0)) ≡ true = rw (master, node) refl in
      (st', before, second_of _ _ _ _ _ new identified ∙ e)

-- Each stage of the text's way: what the client hands on, the bridge's calls, and the packet.
pub record Back (fmt : FloatPrinter) (clock : ℕ) (frame : List ℕ) (tcp : Tcp) (msg : BridgeMessage)
    (env : Env BitchatKeypair) (st : Bridge BitchatKeypair) (a b : Radio) (o : Own)
    (peers : List PeerSession) (relay : Relay) (ble : BitchatBle) (conn : ℕ) : Type 0 where
  pub key : BitchatKeypair
  pub st' : Bridge BitchatKeypair
  pub before : List (Action BitchatKeypair)
  pub handed : handle_from_radio fmt env.now clock frame tcp ≡ done (tcp, message msg ∷ [])
  pub bridged :
      on_meshtastic_message env msg st ≡ (st', before ++ (ble_send_text_as msg.text key ∷ []))
  pub heard : TextHeard a b o key peers relay ble conn msg.text

-- A text of the mesh, from a node other than the bridge's own two, that the bridge has not seen
-- within a minute, becomes one message to the bridge, whose last call sends it as the node's
-- virtual identity; the packet goes to all peers, and a peer that knows the identity's key and gets
-- it in one write reads the text, cut to 240 bytes, as of the identity's ID. The configuration is
-- complete, numbers fit their types, the frame's text has at most 2^28 bytes and does not begin
-- with NUL, there is a master key and an identity for the node, signatures hold and have 64 bytes,
-- the identity's keys have 32, and 168 bytes is not the text's length.
pub mesh_text_crosses :
    (fmt : FloatPrinter) (clock from to id channel hop_limit c t : ℕ) (text words : List ℕ)
    (tcp : Tcp) (env : Env BitchatKeypair) (st : Bridge BitchatKeypair)
    (vi : VirtualIdentity BitchatKeypair) (fp : List ℕ) (a b : Radio) (o : Own)
    (peers : List PeerSession) (relay : Relay) (ble : BitchatBle) (conn i : ℕ) (key : List ℕ)
    → tcp.config_complete ≡ true
    → IsU32 from
    → IsU32 to
    → IsU32 id
    → channel < 256
    → hop_limit < 256
    → length text < 2 ^ 28
    → is_known_as_own from tcp ≡ false
    → (from == 0) ≡ false
    → c_str (take 255 (c ∷ text)) ≡ t ∷ words
    → let msg = forwarded_text env.now from (c ∷ text) tcp.nodes in
      is_duplicate env.now (hash msg) st.dedup ≡ false
      → env.master ≡ some fp
      → (get_or_create env.heap env.now from (env.derive from) st.virt_registry).vi ≡ some vi
      → Signs a.signer
      → ((body : List ℕ)
          → b.signer.verify (a.signer.sign body vi.keypair.sign_private) body key ≡ true)
      → IsIdentity vi.keypair
      → find_peer conn ble.peers ≡ some i
      → (get_or ble.peers i zero_peer).sign_pubkey ≡ some key
      → length (cut_text (t ∷ words)) ≢ 168
      → Back fmt clock
          (text_frame from to id channel hop_limit (c ∷ text))
          tcp
          msg
          env
          st
          a
          b
          o
          peers
          relay
          ble
          conn
mesh_text_crosses fmt clock from to id channel hop_limit c t text words tcp env st vi fp a b o peers
      relay ble conn i key ready hf ht hi hc hh hl other node shown new master found signs valid
      whole known stored size =
    let msg = forwarded_text env.now from (c ∷ text) tcp.nodes in
    let (st', before, bridged) =
      on_meshtastic_message-SendsAs env msg st vi fp new master node found in
    record {
      key = vi.keypair;
      st' = st';
      before = before;
      handed =
          handle_from_radio-text fmt env.now clock from to id channel hop_limit c text tcp ready hf
            ht hi hc hh hl
          ∙ rw other refl;
      bridged = bridged;
      heard = rw shown (
          text_as-heard a b o vi.keypair peers relay ble conn i t words key signs valid whole known
            stored size);
    }
