-- ===== src/Bridge/Tests.antt =====
-- The theorems of the bridge at concrete inputs.
use bitchat_meshtastic.Prelude.{
  ℕ, ◌≤◌, ◌≡◌, refl, arith, true, false, none, some, List, [], ◌∷◌, ◌++◌, length, replicate, codes,
  All,
}
use bitchat_meshtastic.Bridge.Message.{BridgeMessage, bitchat, mix_all, no_sender}
use bitchat_meshtastic.Bridge.Dedup.{empty_dedup, is_duplicate, record_all}
use bitchat_meshtastic.Bridge.Dedup.Window.{IsRing, is_duplicate-record_all}
use bitchat_meshtastic.Bridge.Names.{IdentityMapper}
use bitchat_meshtastic.Bridge.Registry.{VirtualIdentity, get_or_create, evict_lru}
use bitchat_meshtastic.Bridge.Registry.Distinct.{IsRegistry}
use bitchat_meshtastic.Bridge.Registry.Create.{get_or_create-IsRegistry}
use bitchat_meshtastic.Bridge.Chunks.{max_slice, split_into_chunks, chunk_text}
use bitchat_meshtastic.Bridge.Chunks.Cover.{chunks_fit}
use bitchat_meshtastic.Bridge.Chunks.Lost.{split_into_chunks_loses}
use bitchat_meshtastic.Bridge.Manager.{Bridge, Env}
use bitchat_meshtastic.Bridge.Manager.Tick.{reconnect}

-- FNV-1a of "a", in a message without a sender: the text and twelve zero bytes.
mix_all_a : mix_all 2166136261 (codes "a") ≡ 0xE40C292C
unfolding mix_all
mix_all_a = refl

empty-IsRing : IsRing empty_dedup
empty-IsRing = (refl, omega arith)

is_duplicate-record_all_example :
    is_duplicate 1700 7 (record_all ((1000, 7) ∷ (1500, 8) ∷ []) empty_dedup) ≡ true
is_duplicate-record_all_example =
    is_duplicate-record_all empty_dedup 1000 1700 7 ((1500, 8) ∷ []) empty-IsRing (omega arith)
      (omega arith)

abbrev no_names : IdentityMapper
no_names = record { mesh_names = []; ble_names = []; last_save_ms = 0; dirty = false }

abbrev one_name : IdentityMapper
one_name = record no_names {
  mesh_names = record { node_id = 6; long_name = codes "Bo"; short_name = [] } ∷ [];
}

abbrev seen_at : ℕ → ℕ → VirtualIdentity ℕ
seen_at node_id time = record {
  mesh_node_id = node_id;
  keypair = 0;
  last_seen_ms = time;
  display_name = [];
}

abbrev two_identities : List (VirtualIdentity ℕ)
two_identities = seen_at 1 500 ∷ seen_at 2 400 ∷ []

evict_lru_second : evict_lru two_identities ≡ (seen_at 1 500 ∷ [], seen_at 2 400 ∷ [])
unfolding evict_lru
evict_lru_second = refl

two_identities-IsRegistry : IsRegistry two_identities
two_identities-IsRegistry = (((λ e. omega (arith, e), tt), (tt, tt)), omega arith)

-- With little heap, the one that was seen longest ago makes room, and no more is created.
get_or_create-IsRegistry_example :
    IsRegistry (get_or_create (λ n. 30000) 600 3 (some 9) two_identities).identities
get_or_create-IsRegistry_example =
    get_or_create-IsRegistry (λ n. 30000) 600 3 (some 9) two_identities two_identities-IsRegistry

abbrev new_identity : VirtualIdentity ℕ
new_identity = record (seen_at 3 600) { keypair = 9 }

abbrev ann : List ℕ
ann = codes "[B] Ann"

chunks_fit_example :
    (1 ≤ length (split_into_chunks ann (replicate 500 b'x')))
    × (length (split_into_chunks ann (replicate 500 b'x')) ≤ 4)
    × All (λ t. length t ≤ 233) (split_into_chunks ann (replicate 500 b'x'))
chunks_fit_example = chunks_fit ann (replicate 500 b'x') (omega arith)

abbrev front_part : List ℕ
front_part = replicate 216 b'x'

abbrev back_part : List ℕ
back_part = replicate 215 b'y'

-- "é" across the end of the first slice; the last byte, "z", is in neither chunk.
split_into_chunks_loses_example :
    split_into_chunks ann (front_part ++ (0xC3 ∷ 0xA9 ∷ (back_part ++ (b'z' ∷ []))))
    ≡ chunk_text ann 0 2 front_part false ∷ chunk_text ann 1 2 (0xC3 ∷ 0xA9 ∷ back_part) false ∷ []
split_into_chunks_loses_example =
    split_into_chunks_loses ann front_part back_part 0xC3 0xA9 b'z' (unfold max_slice in refl)
      (unfold max_slice in refl) refl refl refl

abbrev fresh : Bridge ℕ
fresh = record {
  id_mapper = no_names;
  virt_registry = [];
  dedup = empty_dedup;
  msg_count = 0;
  pending = [];
  pending_next = 0;
  pending_send_at_ms = 0;
  mesh_retry_ms = 0;
  mesh_retry_interval = 5000;
  mesh_was_connected = false;
  virt_announce_idx = none;
  last_virt_announce_cycle_ms = 0;
  last_virt_announce_step_ms = 0;
  last_mem_check_ms = 0;
}

abbrev at : ℕ → Env ℕ
at now = record { now = now; heap = λ n. 90000; opens = true; master = none; derive = λ n. some n }

abbrev hello : BridgeMessage
hello = record { origin = bitchat; sender = no_sender; text = codes "hi"; timestamp_ms = 0 }

abbrev queued : Bridge ℕ
queued = record fresh { pending = codes "a" ∷ codes "b" ∷ []; pending_send_at_ms = 100 }

abbrev after_160 : Bridge ℕ
after_160 = record fresh { mesh_retry_interval = 160000 }

-- The doubling goes past the 5 minutes.
reconnect_past_cap : (reconnect (at 200000) false false after_160).0.mesh_retry_interval ≡ 320000
unfolding reconnect
reconnect_past_cap = refl
