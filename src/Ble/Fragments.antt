-- ===== src/Ble/Fragments.antt =====
-- The fragments of src/bitchat/bitchat_ble.cpp: the payloads of `_send_fragmented`, and
-- `_handle_fragment`.
pub mod Sizes
pub mod Held
use bitchat_meshtastic.Prelude.{
  ℕ, zero, suc, ◌+◌, ◌-◌, ◌*◌, ◌/◌, ◌%◌, ◌^◌, ltb, leb, ◌==◌, if◌then◌else◌, Bool, true, false, not,
  ◌&&◌, ◌||◌, Option, none, some, List, [], ◌∷◌, ◌++◌, length, get_or, set, take, drop, replicate,
  sub32, from_le32,
}
use bitchat_meshtastic.Config.{
  bitchat_frag_reassembly, bitchat_ble_mtu, bitchat_frag_header_len, bitchat_max_fragments,
  bitchat_frag_timeout_ms,
}

-- The MTU less the header (14), the sender (8), the fragment's header, the signature (64), and 64
-- more: 356, which is not below 64.
abbrev pub max_sent_chunk : ℕ
max_sent_chunk = bitchat_ble_mtu - 14 - 8 - bitchat_frag_header_len - 64 - 64

abbrev pub total_frags : ℕ → ℕ
total_frags pkt_len = (pkt_len + max_sent_chunk - 1) / max_sent_chunk

-- msg_id(4) + frag_idx(1) + total(1) + chunk
abbrev frag_payload : ℕ → ℕ → ℕ → List ℕ → List ℕ
frag_payload msg_id i total chunk =
    msg_id / 2 ^ 24 % 256
    ∷ msg_id / 2 ^ 16 % 256
    ∷ msg_id / 2 ^ 8 % 256
    ∷ msg_id % 256
    ∷ i % 256
    ∷ total % 256
    ∷ chunk

-- The loop over `count` fragments from the i-th on; `pkt` is the rest of the packet.
unfoldable pub payloads_from : ℕ → ℕ → ℕ → ℕ → List ℕ → List (List ℕ)
payloads_from zero msg_id i total pkt = []
payloads_from (suc count) msg_id i total pkt =
    frag_payload msg_id i total (take max_sent_chunk pkt)
    ∷ payloads_from count msg_id (suc i) total (drop max_sent_chunk pkt)

-- The payloads of the fragments, in order; none for a packet that needs more than 8.
unfoldable pub fragment_payloads : ℕ → List ℕ → List (List ℕ)
unfolding payloads_from
fragment_payloads msg_id pkt =
    let total = total_frags (length pkt) in
    if ltb bitchat_max_fragments total then [] else payloads_from total msg_id 0 total pkt

-- `FragReassembly`: `chunks` holds, for each index of a fragment, what was received, in its own
-- region of `data`; `received_mask`, `frag_offsets` and `frag_lengths` say the same.
pub record FragReassembly : Type 0 where
  pub active : Bool
  pub msg_id : ℕ
  pub conn_handle : ℕ
  pub start_ms : ℕ
  pub chunks : List (Option (List ℕ))

-- The region of an index has 2048 / 8 bytes.
abbrev pub max_chunk : ℕ
max_chunk = 256

abbrev pub new_slot : ℕ → ℕ → ℕ → FragReassembly
new_slot now msg_id conn = record {
  active = true;
  msg_id = msg_id;
  conn_handle = conn;
  start_ms = now;
  chunks = replicate bitchat_max_fragments none;
}

-- The index of the slot that reassembles the message.
unfoldable pub slot_of : ℕ → ℕ → ℕ → List FragReassembly → Option ℕ
slot_of msg_id conn i [] = none
slot_of msg_id conn i (s ∷ slots) =
    if s.active && ((s.msg_id == msg_id) && (s.conn_handle == conn))
    then some i
    else slot_of msg_id conn (suc i) slots

abbrev pub expire_slots : ℕ → List FragReassembly → List FragReassembly
expire_slots now [] = []
expire_slots now (s ∷ slots) =
    (if s.active && ltb bitchat_frag_timeout_ms (sub32 now s.start_ms)
      then record s { active = false }
      else s)
    ∷ expire_slots now slots

abbrev pub free_slot : ℕ → List FragReassembly → Option ℕ
free_slot i [] = none
free_slot i (s ∷ slots) = if s.active then free_slot (suc i) slots else some i

-- The index of the slot to use, and the slots, with a fresh one begun where there was none.
unfoldable pub find_slot : ℕ → ℕ → ℕ → List FragReassembly → Option ℕ × List FragReassembly
unfolding slot_of
find_slot now msg_id conn slots =
    let expired = expire_slots now slots in
    elim (slot_of msg_id conn 0 slots) [
      | some i ↦ (some i, slots)
      | none ↦ elim (free_slot 0 expired) [
        | none ↦ (none, expired)
        | some i ↦ (some i, set expired i (new_slot now msg_id conn))
      ]
    ]

-- A fragment that was received before is kept.
abbrev store_chunk : ℕ → List ℕ → List (Option (List ℕ)) → List (Option (List ℕ))
store_chunk i chunk chunks = elim (get_or chunks i none) [
  | none ↦ set chunks i (some chunk)
  | some c ↦ chunks
]

-- The chunks of all indices below `total` joined, and none received beyond: the mask is compared
-- as a whole. `none` while one is missing.
unfoldable pub assembled : ℕ → List (Option (List ℕ)) → Option (List ℕ)
assembled total [] = if total == 0 then some [] else none
assembled zero (none ∷ chunks) = assembled zero chunks
assembled zero (some c ∷ chunks) = none
assembled (suc total) (none ∷ chunks) = none
assembled (suc total) (some c ∷ chunks) = elim (assembled total chunks) [
  | none ↦ none
  | some rest ↦ some (c ++ rest)
]

abbrev empty_slot : FragReassembly
empty_slot = record { active = false; msg_id = 0; conn_handle = 0; start_ms = 0; chunks = [] }

abbrev pub empty_slots : List FragReassembly
empty_slots = replicate bitchat_frag_reassembly empty_slot

-- The chunk goes into the slot; a packet that is complete is handed on, and the slot is free.
unfoldable pub put_chunk :
    ℕ → ℕ → ℕ → List ℕ → List FragReassembly → List FragReassembly × Option (List ℕ)
unfolding assembled
put_chunk at i total chunk slots =
    let s = get_or slots at empty_slot in
    let chunks = store_chunk i chunk s.chunks in
    elim (assembled total chunks) [
      | none ↦ (set slots at (record s { chunks = chunks }), none)
      | some pkt ↦ (set slots at (record s { chunks = chunks; active = false }), some pkt)
    ]

abbrev put_if_found :
    ℕ → ℕ → List ℕ → Option ℕ × List FragReassembly → List FragReassembly × Option (List ℕ)
put_if_found i total chunk (none, slots) = (slots, none)
put_if_found i total chunk (some at, slots) = put_chunk at i total chunk slots

-- The slots, and the packet that was reassembled, if one was.
unfoldable pub handle_fragment :
    ℕ → ℕ → List ℕ → List FragReassembly → List FragReassembly × Option (List ℕ)
unfolding find_slot put_chunk
handle_fragment now conn payload slots =
    let msg_id =
      from_le32 (get_or payload 3 0) (get_or payload 2 0) (get_or payload 1 0)
        (get_or payload 0 0) in
    let frag_idx = get_or payload 4 0 in
    let total = get_or payload 5 0 in
    let chunk = drop bitchat_frag_header_len payload in
    if ltb (length payload) bitchat_frag_header_len
    then (slots, none)
    else if (total == 0) || (leb total frag_idx || ltb bitchat_max_fragments total)
    then (slots, none)
    else if ltb max_chunk (length chunk) || (length chunk == 0)
    then (slots, none)
    else put_if_found frag_idx total chunk (find_slot now msg_id conn slots)
