-- ===== src/Ble/Peers.antt =====
-- The sessions of the peers of src/bitchat/bitchat_ble.cpp: `_find_peer`, `_alloc_peer`,
-- `_free_peer` and `_active_peer_count`.
pub mod Slots
use bitchat_meshtastic.Prelude.{
  ℕ, zero, suc, ◌+◌, ◌==◌, if◌then◌else◌, Bool, true, false, ◌&&◌, Option, none, some, List, [],
  ◌∷◌, length, replicate,
}
use bitchat_meshtastic.Config.{bitchat_max_connections}
use bitchat_meshtastic.Noise.Symmetric.{SymmetricState, CipherState}
use bitchat_meshtastic.Noise.Handshake.{Handshake, initiator, idle}
use bitchat_meshtastic.Bridge.Message.{BridgeMessage}

-- `client` and `remote_chr` are whether the pointers are set. `nickname` is a C string, and
-- `sign_pubkey` is `none` while `sign_pubkey_known` is false.
pub record PeerSession : Type 0 where
  pub active : Bool
  pub conn_handle : ℕ
  pub connect_time_ms : ℕ
  pub ble_addr : List ℕ
  pub peer_id : Option (List ℕ)
  pub we_are_central : Bool
  pub announce_sent : Bool
  pub announce_rcvd : Bool
  pub nickname : List ℕ
  pub sign_pubkey : Option (List ℕ)
  pub hs : Handshake
  pub client : Bool
  pub remote_chr : Bool

abbrev pub zero_key : List ℕ
zero_key = replicate 32 0

abbrev zero_cipher : CipherState
zero_cipher = record { k = zero_key; n = 0 }

abbrev pub zero_handshake : Handshake
zero_handshake = record {
  role = initiator;
  phase = idle;
  s_priv = [];
  s_pub = [];
  e_priv = zero_key;
  e_pub = zero_key;
  re_pub = zero_key;
  rs_pub = zero_key;
  ss = record { ck = zero_key; h = zero_key; k = zero_key; n = 0; has_key = false };
  send_cs = zero_cipher;
  recv_cs = zero_cipher;
}

-- `memset` to 0
abbrev pub zero_peer : PeerSession
zero_peer = record {
  active = false;
  conn_handle = 0;
  connect_time_ms = 0;
  ble_addr = replicate 6 0;
  peer_id = none;
  we_are_central = false;
  announce_sent = false;
  announce_rcvd = false;
  nickname = [];
  sign_pubkey = none;
  hs = zero_handshake;
  client = false;
  remote_chr = false;
}

abbrev pub no_peers : List PeerSession
no_peers = replicate bitchat_max_connections zero_peer

abbrev pub is_peer : ℕ → PeerSession → Bool
is_peer handle p = p.active && (p.conn_handle == handle)

-- The first active session with the handle, by its index.
unfoldable pub find_peer : ℕ → List PeerSession → Option ℕ
find_peer handle [] = none
find_peer handle (p ∷ ps) =
    if is_peer handle p
    then some 0
    else (elim (find_peer handle ps) [ none ↦ none | some i ↦ some (suc i) ])

-- `addr` is `none` for a null pointer.
abbrev pub new_peer : ℕ → ℕ → Option (List ℕ) → Bool → PeerSession
new_peer now handle addr we_are_central = record zero_peer {
  active = true;
  conn_handle = handle;
  we_are_central = we_are_central;
  connect_time_ms = now;
  ble_addr = elim addr [ none ↦ replicate 6 0 | some a ↦ a ];
}

abbrev pub shifted : PeerSession → Option (ℕ × List PeerSession) → Option (ℕ × List PeerSession)
shifted p none = none
shifted p (some (i, ps)) = some (suc i, p ∷ ps)

-- The first free slot is taken: its index, and the sessions; `none` if all are in use.
unfoldable pub alloc_peer : PeerSession → List PeerSession → Option (ℕ × List PeerSession)
alloc_peer new [] = none
alloc_peer new (p ∷ ps) = if p.active then shifted p (alloc_peer new ps) else some (0, new ∷ ps)

-- The first active session with the handle is cleared; the result is the sessions, and whether
-- its client was disconnected and deleted.
unfoldable pub free_peer : ℕ → List PeerSession → List PeerSession × Bool
free_peer handle [] = ([], false)
free_peer handle (p ∷ ps) =
    if is_peer handle p
    then (zero_peer ∷ ps, p.client)
    else (let (ps', closed) = free_peer handle ps in (p ∷ ps', closed))

unfoldable pub active_peer_count : List PeerSession → ℕ
active_peer_count [] = 0
active_peer_count (p ∷ ps) = (if p.active then 1 else 0) + active_peer_count ps

-- What the class asks of NimBLE, of the system clock and of the callback: a write to the
-- characteristic of a peer, a notification to all that subscribed, a message for the bridge, the
-- clock set, a client disconnected and deleted, advertising and scanning, and the end.
pub data Effect : Type 0 where
  write_value : ℕ → List ℕ → Effect
  notify : List ℕ → Effect
  on_message : BridgeMessage → Effect
  set_time : ℕ → Effect
  close_client : ℕ → Effect
  start_advertising start_scan stop_scan deinit : Effect
