-- ===== src/Ble/Relay.antt =====
-- The relay of packets of src/bitchat/bitchat_ble.cpp: `_relay_hash`, `_relay_is_dup`,
-- `_relay_record` and `_relay_packet`, with their fields in src/bitchat/bitchat_ble.h.
pub mod Once
use bitchat_meshtastic.Prelude.{
  ℕ, suc, ◌+◌, ◌*◌, ◌%◌, ◌^◌, ltb, ◌==◌, if◌then◌else◌, Bool, true, false, not, ◌&&◌, ◌||◌, List,
  [], ◌∷◌, length, get_or, set, take, replicate, sub32,
}
use bitchat_meshtastic.Config.{bitchat_header_len, bitchat_msg_cache_ttl_ms}
use bitchat_meshtastic.Ble.Padding.{pad_packet}
use bitchat_meshtastic.Ble.Peers.{PeerSession}

abbrev pub relay_dedup_size : ℕ
relay_dedup_size = 64

pub record RelayDedupEntry : Type 0 where
  pub hash : ℕ
  pub timestamp_ms : ℕ

pub record Relay : Type 0 where
  pub relay_dedup : List RelayDedupEntry
  pub relay_dedup_idx : ℕ

abbrev pub zero_relay_entry : RelayDedupEntry
zero_relay_entry = record { hash = 0; timestamp_ms = 0 }

abbrev pub empty_relay : Relay
empty_relay = record {
  relay_dedup = replicate relay_dedup_size zero_relay_entry;
  relay_dedup_idx = 0;
}

-- From the byte with number `i` on.
unfoldable pub relay_hash_from : ℕ → ℕ → List ℕ → ℕ
relay_hash_from i h [] = h
relay_hash_from i h (b ∷ bs) =
    relay_hash_from (suc i) (if i == 2 then h else (h * 32 % 2 ^ 32 + h + b) % 2 ^ 32) bs

abbrev pub relay_hash : List ℕ → ℕ
relay_hash pkt = relay_hash_from 0 5381 pkt

abbrev pub is_seen : ℕ → ℕ → RelayDedupEntry → Bool
is_seen now h e = (e.hash == h) && ltb (sub32 now e.timestamp_ms) bitchat_msg_cache_ttl_ms

unfoldable pub any_seen : ℕ → ℕ → List RelayDedupEntry → Bool
any_seen now h [] = false
any_seen now h (e ∷ es) = if is_seen now h e then true else any_seen now h es

-- `now` is `millis()`.
abbrev pub relay_is_dup : ℕ → ℕ → Relay → Bool
relay_is_dup now h r = any_seen now h r.relay_dedup

unfoldable pub relay_record : ℕ → ℕ → Relay → Relay
relay_record now h r = record {
  relay_dedup = set r.relay_dedup r.relay_dedup_idx (record { hash = h; timestamp_ms = now });
  relay_dedup_idx = (r.relay_dedup_idx + 1) % relay_dedup_size;
}

-- The calls of `_send_to_peer`: the peer and the bytes.
unfoldable pub send_to_others : ℕ → List ℕ → List PeerSession → List (PeerSession × List ℕ)
send_to_others except_handle bytes [] = []
send_to_others except_handle bytes (p ∷ ps) =
    let others = send_to_others except_handle bytes ps in
    if not p.active || (p.conn_handle == except_handle) then others else (p, bytes) ∷ others

-- A uint8_t: a TTL of 0 becomes 255.
abbrev pub decrement_ttl : List ℕ → List ℕ
decrement_ttl pkt = set pkt 2 ((get_or pkt 2 0 + 255) % 256)

unfoldable pub relay_packet :
    ℕ → List ℕ → ℕ → List PeerSession → Relay → Relay × List (PeerSession × List ℕ)
relay_packet now pkt except_handle peers r =
    let h = relay_hash pkt in
    if ltb (length pkt) bitchat_header_len || relay_is_dup now h r then (r, []) else (
      relay_record now h r,
      send_to_others except_handle (pad_packet (decrement_ttl (take 2048 pkt)) 2048) peers,
    )
