-- ===== src/Ble/Relay/Once.antt =====
-- A packet is relayed once, whatever its TTL is when it comes back.
use bitchat_meshtastic.Prelude.{
  ℕ, zero, suc, ◌+◌, ◌%◌, ◌^◌, ◌*◌, ◌<◌, ◌≤◌, ◌≡◌, refl, arith, ==-refl, ltb, ◌==◌, if◌then◌else◌,
  true, false, Bool-cases, inl, inr, List, [], ◌∷◌, length, get_or, set, sub32, length-set,
  get_or-set_self, get_or-set_ne, ◌≢◌, ◌∙◌,
}
use bitchat_meshtastic.Config.{bitchat_msg_cache_ttl_ms}
use bitchat_meshtastic.Ble.Peers.{PeerSession}
use bitchat_meshtastic.Ble.Relay.{
  RelayDedupEntry, Relay, zero_relay_entry, relay_hash_from, relay_hash, is_seen, any_seen,
  relay_is_dup, relay_record, relay_packet,
}

relay_hash_from-set :
    (i j h t : ℕ) (bs : List ℕ)
    → i + j ≡ 2
    → relay_hash_from i h (set bs j t) ≡ relay_hash_from i h bs
unfolding relay_hash_from
relay_hash_from-set i j h t [] e = refl
relay_hash_from-set i zero h t (b ∷ bs) e = let two : i ≡ 2 = omega (arith, e) in rw two refl
relay_hash_from-set i (suc j) h t (b ∷ bs) e =
    relay_hash_from-set (suc i) j (if i == 2 then h else (h * 32 % 2 ^ 32 + h + b) % 2 ^ 32) t bs
      (omega (arith, e))

any_seen-get_or :
    (now h : ℕ) (es : List RelayDedupEntry) (i : ℕ)
    → i < length es
    → is_seen now h (get_or es i zero_relay_entry) ≡ true
    → any_seen now h es ≡ true
unfolding any_seen
any_seen-get_or now h [] i hi seen = absurd (omega arith)
any_seen-get_or now h (e ∷ es) zero hi seen = rw seen refl
any_seen-get_or now h (e ∷ es) (suc i) hi seen = elim (Bool-cases (is_seen now h e)) [
  | inl p ↦ rw p refl
  | inr p ↦ rw p (any_seen-get_or now h es i (omega arith) seen)
]

-- Hashes recorded one after the other, each with its time.
abbrev pub relay_record_all : List (ℕ × ℕ) → Relay → Relay
relay_record_all [] r = r
relay_record_all ((now, h) ∷ later) r = relay_record_all later (relay_record now h r)

-- The ring has its 64 entries, and the index is one of them.
abbrev pub IsRelayRing : Relay → Type 0
IsRelayRing r = (length r.relay_dedup ≡ 64) × (r.relay_dedup_idx < 64)

relay_record-IsRelayRing :
    (now h : ℕ) (r : Relay) → IsRelayRing r → IsRelayRing (relay_record now h r)
unfolding relay_record
relay_record-IsRelayRing now h r ring =
    omega
      (arith, length-set r.relay_dedup r.relay_dedup_idx (record { hash = h; timestamp_ms = now }))

-- An entry stays in the ring until the index comes to it.
entry_stays :
    (later : List (ℕ × ℕ)) (r : Relay) (i : ℕ)
    → IsRelayRing r
    → ((k : ℕ) → k < length later → (r.relay_dedup_idx + k) % 64 ≢ i)
    → IsRelayRing (relay_record_all later r)
      × (get_or (relay_record_all later r).relay_dedup i zero_relay_entry
          ≡ get_or r.relay_dedup i zero_relay_entry)
entry_stays [] r i ring away = (ring, refl)
entry_stays ((now, h) ∷ later) r i ring away =
    let (ring', same) =
      entry_stays later (relay_record now h r) i (relay_record-IsRelayRing now h r ring)
        (λ k hk. shifted k hk) in
    (ring', same ∙ first)
  where
    first :
        get_or (relay_record now h r).relay_dedup i zero_relay_entry
        ≡ get_or r.relay_dedup i zero_relay_entry
    first =
        unfold relay_record in
        get_or-set_ne r.relay_dedup r.relay_dedup_idx i (record { hash = h; timestamp_ms = now })
          zero_relay_entry (λ e. away 0 (omega arith) (omega (arith, e, ring.1)))

    shifted : (k : ℕ) → k < length later → ((relay_record now h r).relay_dedup_idx + k) % 64 ≢ i
    shifted k hk = unfold relay_record in λ e. away (suc k) (omega arith) (omega (arith, e))

relay_record_all-seen :
    (later : List (ℕ × ℕ)) (sent now h : ℕ) (r : Relay)
    → IsRelayRing r
    → length later ≤ 63
    → ltb (sub32 now sent) bitchat_msg_cache_ttl_ms ≡ true
    → relay_is_dup now h (relay_record_all later (relay_record sent h r)) ≡ true
relay_record_all-seen later sent now h r ring few soon =
    let (ring', same) =
      entry_stays later (relay_record sent h r) r.relay_dedup_idx
        (relay_record-IsRelayRing sent h r ring) (λ k hk. away k hk) in
    any_seen-get_or now h (relay_record_all later (relay_record sent h r)).relay_dedup
      r.relay_dedup_idx (omega arith) (rw (same, written, ==-refl h) soon)
  where
    e : RelayDedupEntry
    e = record { hash = h; timestamp_ms = sent }

    away :
        (k : ℕ)
        → k < length later
        → ((relay_record sent h r).relay_dedup_idx + k) % 64 ≢ r.relay_dedup_idx
    away k hk = unfold relay_record in λ e. omega (arith, e, ring.1)

    written : get_or (relay_record sent h r).relay_dedup r.relay_dedup_idx zero_relay_entry ≡ e
    written =
        unfold relay_record in
        get_or-set_self r.relay_dedup r.relay_dedup_idx e zero_relay_entry (omega arith)

-- A packet of at least 14 bytes that is no duplicate in a well-formed ring leaves its hash in the ring. When it comes
-- back within 30 seconds, with any TTL and from any peer, and at most 63 other hashes are recorded in between, it
-- is not sent and changes nothing.
pub relay_packet_again :
    (sent now t from from' : ℕ) (pkt : List ℕ) (peers peers' : List PeerSession)
    (later : List (ℕ × ℕ)) (r : Relay)
    → IsRelayRing r
    → 14 ≤ length pkt
    → relay_is_dup sent (relay_hash pkt) r ≡ false
    → length later ≤ 63
    → ltb (sub32 now sent) bitchat_msg_cache_ttl_ms ≡ true
    → relay_packet now
        (set pkt 2 t)
        from'
        peers'
        (relay_record_all later (relay_packet sent pkt from peers r).0)
      ≡ (relay_record_all later (relay_packet sent pkt from peers r).0, [])
unfolding relay_packet
relay_packet_again sent now t from from' pkt peers peers' later r ring long fresh few soon =
    let whole : ltb (length pkt) 14 ≡ false = ground arith in
    rw
      (
        relay_hash_from-set 0 2 5381 t pkt refl,
        length-set pkt 2 t,
        whole,
        fresh,
        relay_record_all-seen later sent now (relay_hash pkt) r ring few soon,
      )
      refl
