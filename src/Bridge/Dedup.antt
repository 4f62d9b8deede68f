-- ===== src/Bridge/Dedup.antt =====
-- The ring of recent message hashes of src/bridge/bridge_manager.cpp: `_is_duplicate` and
-- `_record_hash`.
pub mod Window
use bitchat_meshtastic.Prelude.{
  ℕ, ◌+◌, ◌%◌, ltb, ◌==◌, if◌then◌else◌, Bool, true, false, ◌&&◌, List, [], ◌∷◌, set, replicate,
  sub32,
}
use bitchat_meshtastic.Config.{dedup_cache_size, dedup_ttl_ms}

pub record DedupEntry : Type 0 where
  pub hash : ℕ
  pub timestamp_ms : ℕ

pub record Dedup : Type 0 where
  pub entries : List DedupEntry
  pub idx : ℕ

abbrev pub zero_entry : DedupEntry
zero_entry = record { hash = 0; timestamp_ms = 0 }

abbrev pub empty_dedup : Dedup
empty_dedup = record { entries = replicate dedup_cache_size zero_entry; idx = 0 }

-- Whether an entry has the hash and is not too old.
abbrev pub is_recent : ℕ → ℕ → DedupEntry → Bool
is_recent now hash e = (e.hash == hash) && ltb (sub32 now e.timestamp_ms) dedup_ttl_ms

unfoldable pub any_recent : ℕ → ℕ → List DedupEntry → Bool
any_recent now hash [] = false
any_recent now hash (e ∷ es) = if is_recent now hash e then true else any_recent now hash es

-- `now` is `millis()`.
unfoldable pub is_duplicate : ℕ → ℕ → Dedup → Bool
is_duplicate now hash d = any_recent now hash d.entries

unfoldable pub record_hash : ℕ → ℕ → Dedup → Dedup
record_hash now hash d = record {
  entries = set d.entries d.idx (record { hash = hash; timestamp_ms = now });
  idx = (d.idx + 1) % dedup_cache_size;
}

-- Hashes recorded one after the other, each with its time.
abbrev pub record_all : List (ℕ × ℕ) → Dedup → Dedup
record_all [] d = d
record_all ((now, hash) ∷ rest) d = record_all rest (record_hash now hash d)
