-- ===== src/Ble/Fragments/Held/Bytes.antt =====
-- The bytes of the chunks, the slots and the packets of reassembly.
use bitchat_meshtastic.Prelude.{
  ℕ, zero, suc, ◌+◌, ◌≤◌, ◌≡◌, inl, inr, arith, ◌==◌, if◌then◌else◌, Bool-cases, Option,
  Option-cases, none, some, List, [], ◌∷◌, ◌++◌, length, get_or, set, length-append,
}
use bitchat_meshtastic.Ble.Fragments.{FragReassembly, store_chunk, assembled, empty_slot}

abbrev pub chunk_bytes : List (Option (List ℕ)) → ℕ
chunk_bytes [] = 0
chunk_bytes (none ∷ chunks) = chunk_bytes chunks
chunk_bytes (some c ∷ chunks) = length c + chunk_bytes chunks

abbrev pub held : FragReassembly → ℕ
held s = if s.active then chunk_bytes s.chunks else 0

-- The bytes in the slots that are in use.
unfoldable pub held_bytes : List FragReassembly → ℕ
held_bytes [] = 0
held_bytes (s ∷ slots) = held s + held_bytes slots

-- A packet counts one more than its bytes.
abbrev pub whole_bytes : Option (List ℕ) → ℕ
whole_bytes none = 0
whole_bytes (some pkt) = length pkt + 1

pub held_bytes-set :
    (slots : List FragReassembly) (i : ℕ) (s : FragReassembly)
    → held_bytes (set slots i s) + held (get_or slots i empty_slot) ≤ held_bytes slots + held s
unfolding held_bytes
held_bytes-set [] i s = omega arith
held_bytes-set (q ∷ slots) zero s = omega arith
held_bytes-set (q ∷ slots) (suc i) s = omega (arith, held_bytes-set slots i s)

chunk_bytes-set :
    (chunks : List (Option (List ℕ))) (i : ℕ) (c : List ℕ)
    → get_or chunks i none ≡ none
    → chunk_bytes (set chunks i (some c)) ≤ chunk_bytes chunks + length c
chunk_bytes-set [] i c h = omega arith
chunk_bytes-set (o ∷ chunks) zero c h = rw h (omega arith)
chunk_bytes-set (none ∷ chunks) (suc i) c h = chunk_bytes-set chunks i c h
chunk_bytes-set (some d ∷ chunks) (suc i) c h = omega (arith, chunk_bytes-set chunks i c h)

pub store_chunk-bytes :
    (i : ℕ) (chunk : List ℕ) (chunks : List (Option (List ℕ)))
    → chunk_bytes (store_chunk i chunk chunks) ≤ chunk_bytes chunks + length chunk
store_chunk-bytes i chunk chunks = elim (Option-cases (get_or chunks i none)) [
  | inl free ↦ rw (free, store_chunk) (chunk_bytes-set chunks i chunk free)
  | inr (c, at) ↦ rw (at, store_chunk) (omega arith)
]

abbrev pub IsWithin : ℕ → Option (List ℕ) → Type 0
IsWithin n none = Unit {0}
IsWithin n (some pkt) = length pkt ≤ n

joined : List ℕ → Option (List ℕ) → Option (List ℕ)
joined c o = elim o [ none ↦ none | some rest ↦ some (c ++ rest) ]

joined-IsWithin :
    (n : ℕ) (c : List ℕ) (o : Option (List ℕ)) → IsWithin n o → IsWithin (length c + n) (joined c o)
unfolding joined
joined-IsWithin n c none h = tt
joined-IsWithin n c (some rest) h = omega (arith, length-append c rest)

pub assembled-IsWithin :
    (total : ℕ) (chunks : List (Option (List ℕ)))
    → IsWithin (chunk_bytes chunks) (assembled total chunks)
unfolding assembled joined
assembled-IsWithin total [] = elim (Bool-cases (total == 0)) [
  | inl empty ↦ rw empty (omega arith)
  | inr more ↦ rw more tt
]
assembled-IsWithin zero (none ∷ chunks) = assembled-IsWithin zero chunks
assembled-IsWithin zero (some c ∷ chunks) = tt
assembled-IsWithin (suc total) (none ∷ chunks) = tt
assembled-IsWithin (suc total) (some c ∷ chunks) =
    joined-IsWithin (chunk_bytes chunks) c (assembled total chunks)
      (assembled-IsWithin total chunks)
