-- ===== src/Ble/Fragments/Held.antt =====
-- How many bytes the slots hold: a fragment adds its own, and a packet that is complete takes its bytes out.
mod Bytes
use bitchat_meshtastic.Prelude.{
  ℕ, zero, suc, ◌+◌, ◌≤◌, ◌≡◌, inl, inr, ap, arith, ltb, leb, ◌==◌, if◌then◌else◌, Bool, true,
  false, ◌&&◌, ◌||◌, Bool-cases, Option, Option-cases, none, some, List, [], ◌∷◌, length, get_or,
  set, drop, length-drop, sub32, from_le32,
}
use bitchat_meshtastic.Ble.Fragments.{
  FragReassembly, max_chunk, new_slot, slot_of, expire_slots, free_slot, find_slot, store_chunk,
  assembled, empty_slot, put_chunk, put_if_found, handle_fragment,
}
unfoldable pub use bitchat_meshtastic.Ble.Fragments.Held.Bytes.{held_bytes}
pub use bitchat_meshtastic.Ble.Fragments.Held.Bytes.{whole_bytes}
use bitchat_meshtastic.Ble.Fragments.Held.Bytes.{
  chunk_bytes, held, IsWithin, held_bytes-set, store_chunk-bytes, assembled-IsWithin,
}

-- A slot that is in use, or none at all.
abbrev IsReady : FragReassembly → Type 0
IsReady s = chunk_bytes s.chunks ≤ held s

-- What is there afterwards, against what was there before and came in.
abbrev Takes : ℕ → ℕ → List FragReassembly × Option (List ℕ) → Type 0
Takes before new (slots, whole) = held_bytes slots + whole_bytes whole ≤ before + new

gated : (b : Bool) (n m k : ℕ) → n ≤ m + k → (if b then n else 0) ≤ (if b then m else 0) + k
gated true n m k h = h
gated false n m k h = omega arith

put_chunk-Takes :
    (at i total : ℕ) (chunk : List ℕ) (slots : List FragReassembly)
    → IsReady (get_or slots at empty_slot)
    → Takes (held_bytes slots) (length chunk + 1) (put_chunk at i total chunk slots)
unfolding put_chunk
put_chunk-Takes at i total chunk slots ready =
    put (assembled total chunks) (assembled-IsWithin total chunks)
  where
    s : FragReassembly
    s = get_or slots at empty_slot

    chunks : List (Option (List ℕ))
    chunks = store_chunk i chunk s.chunks

    stored : chunk_bytes chunks ≤ chunk_bytes s.chunks + length chunk
    stored = store_chunk-bytes i chunk s.chunks

    put :
        (o : Option (List ℕ))
        → IsWithin (chunk_bytes chunks) o
        → Takes (held_bytes slots) (length chunk + 1) (elim o [
          | none ↦ (set slots at (record s { chunks = chunks }), none)
          | some pkt ↦ (set slots at (record s { chunks = chunks; active = false }), some pkt)
        ])
    put none h = omega (
      arith,
      held_bytes-set slots at (record s { chunks = chunks }),
      gated s.active (chunk_bytes chunks) (chunk_bytes s.chunks) (length chunk) stored,
    )
    put (some pkt) h = omega (
      arith,
      held_bytes-set slots at (record s { chunks = chunks; active = false }),
      h,
      stored,
      ready,
    )

expire_slots-held :
    (now : ℕ) (slots : List FragReassembly) → held_bytes (expire_slots now slots) ≤ held_bytes slots
unfolding held_bytes
expire_slots-held now [] = omega arith
expire_slots-held now (s ∷ slots) =
    elim (Bool-cases (s.active && ltb 10000 (sub32 now s.start_ms))) [
      | inl old ↦ rw old (omega (arith, expire_slots-held now slots))
      | inr young ↦ rw young (omega (arith, expire_slots-held now slots))
    ]

slot_or_0 : Option ℕ → ℕ
slot_or_0 none = 0
slot_or_0 (some i) = i

slot_of-active :
    (msg_id conn i k : ℕ) (slots : List FragReassembly)
    → slot_of msg_id conn i slots ≡ some k
    → (j : ℕ) × (k ≡ i + j) × ((get_or slots j empty_slot).active ≡ true)
unfolding slot_of slot_or_0
slot_of-active msg_id conn i k [] h = absurd (ground (arith, h))
slot_of-active msg_id conn i k (s ∷ slots) h =
    elim (Bool-cases (s.active && ((s.msg_id == msg_id) && (s.conn_handle == conn)))) [
      | inl it ↦
          let same : Option.some i ≡ some k = rw it at h in
          let here : i ≡ k = ap slot_or_0 same in (0, omega (arith, here), ground arith)
      | inr other ↦
          let (j, at, live) = slot_of-active msg_id conn (suc i) k slots (rw other at h) in
          (suc j, omega (arith, at), live)
    ]

set-IsReady :
    (slots : List FragReassembly) (i : ℕ) (s : FragReassembly)
    → IsReady s
    → IsReady (get_or (set slots i s) i empty_slot)
set-IsReady [] i s h = omega arith
set-IsReady (q ∷ slots) zero s h = h
set-IsReady (q ∷ slots) (suc i) s h = set-IsReady slots i s h

-- A slot that is ready, in slots that hold no more than before.
abbrev IsFound : ℕ → Option ℕ × List FragReassembly → Type 0
IsFound before (none, slots) = held_bytes slots ≤ before
IsFound before (some at, slots) = (held_bytes slots ≤ before) × IsReady (get_or slots at empty_slot)

find_slot-IsFound :
    (now msg_id conn : ℕ) (slots : List FragReassembly)
    → IsFound (held_bytes slots) (find_slot now msg_id conn slots)
unfolding find_slot
find_slot-IsFound now msg_id conn slots = elim (Option-cases (slot_of msg_id conn 0 slots)) [
  | inr (k, at) ↦
      let (j, same, live) = slot_of-active msg_id conn 0 k slots at in
      let e : k ≡ j = omega (arith, same) in
      let here : (get_or slots k empty_slot).active ≡ true = rw e live in
      rw (at, find_slot) (omega arith, rw here (omega arith))
  | inl none_yet ↦ elim (Option-cases (free_slot 0 (expire_slots now slots))) [
    | inl full ↦ rw (none_yet, find_slot, full) (expire_slots-held now slots)
    | inr (k, at) ↦
        rw (none_yet, find_slot, at)
          (
            omega (
              arith,
              held_bytes-set (expire_slots now slots) k (new_slot now msg_id conn),
              expire_slots-held now slots,
            ),
            set-IsReady (expire_slots now slots) k (new_slot now msg_id conn) (omega arith),
          )
  ]
]

put_if_found-Takes :
    (before i total : ℕ) (chunk : List ℕ) (found : Option ℕ × List FragReassembly)
    → IsFound before found
    → Takes before (length chunk + 1) (put_if_found i total chunk found)
put_if_found-Takes before i total chunk (none, slots) h = omega (arith, h)
put_if_found-Takes before i total chunk (some at, slots) (h, ready) =
    omega (arith, h, put_chunk-Takes at i total chunk slots ready)

skipped :
    (before new : ℕ) (b : Bool) (slots : List FragReassembly)
    (r : List FragReassembly × Option (List ℕ))
    → held_bytes slots ≤ before
    → Takes before new r
    → Takes before new (if b then (slots, none) else r)
skipped before new true slots r h t = omega (arith, h)
skipped before new false slots r h t = t

-- The bytes that a fragment leaves in the slots and those of the packet that it completes, and one more, are at most those
-- that the slots held and those of the fragment.
pub handle_fragment-Takes :
    (now conn : ℕ) (payload : List ℕ) (slots : List FragReassembly)
    → Takes (held_bytes slots) (length payload) (handle_fragment now conn payload slots)
unfolding handle_fragment
handle_fragment-Takes now conn payload slots = elim (Bool-cases (ltb (length payload) 6)) [
  | inl short ↦ rw short (omega arith)
  | inr long ↦
      let chunk = drop 6 payload in
      let some_left : length chunk + 1 ≤ length payload = ground (arith, length-drop 6 payload) in
      let msg_id =
        from_le32 (get_or payload 3 0) (get_or payload 2 0) (get_or payload 1 0)
          (get_or payload 0 0) in
      let total = get_or payload 5 0 in
      let found = find_slot now msg_id conn slots in
      let put : Takes (held_bytes slots) (length payload)
          (put_if_found (get_or payload 4 0) total chunk found) =
        omega (
          arith,
          some_left,
          put_if_found-Takes (held_bytes slots) (get_or payload 4 0) total chunk found
              (find_slot-IsFound now msg_id conn slots),
        ) in
      let sized =
        skipped (held_bytes slots) (length payload)
          (ltb max_chunk (length chunk) || (length chunk == 0)) slots
          (put_if_found (get_or payload 4 0) total chunk found) (omega arith) put in
      rw long (
        skipped (held_bytes slots) (length payload)
          ((total == 0) || (leb total (get_or payload 4 0) || ltb 8 total)) slots
          (if ltb max_chunk (length chunk) || (length chunk == 0)
            then (slots, none)
            else put_if_found (get_or payload 4 0) total chunk found)
          (omega arith) sized)
]
