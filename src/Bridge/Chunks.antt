-- ===== src/Bridge/Chunks.antt =====
-- Long messages of src/bridge/bridge_manager.cpp: `_split_into_chunks`.
pub mod Cover
pub mod Whole
pub mod Lost
use bitchat_meshtastic.Prelude.{
  ℕ, zero, suc, ◌+◌, ◌-◌, ◌/◌, ltb, leb, ◌==◌, if◌then◌else◌, Bool, true, false, ◌&&◌, List, [],
  ◌∷◌, ◌++◌, length, get_or, take, drop, codes, decimal,
}
use bitchat_meshtastic.Config.{mesh_data_max, bridge_chunk_max_chunks}

-- The bytes of the body that a chunk can take: never fewer than 16.
unfoldable pub max_slice : List ℕ → ℕ
max_slice sender_prefix =
    let room = mesh_data_max - (length sender_prefix + 9) in if ltb room 16 then 16 else room

abbrev at_most : ℕ → ℕ → ℕ
at_most n m = if ltb n m then n else m

unfoldable pub needed_chunks : ℕ → ℕ → ℕ
needed_chunks slice body_len =
    let needed = at_most ((body_len + slice - 1) / slice) bridge_chunk_max_chunks in
    if ltb needed 1 then 1 else needed

-- A UTF-8 continuation byte
abbrev pub is_continuation : ℕ → Bool
is_continuation b = leb 0x80 b && ltb b 0xC0

-- Walks `take` back to a byte that begins a character; `body` begins at `pos`, and the byte behind
-- the body is its NUL.
unfoldable pub walk_back : ℕ → List ℕ → ℕ
walk_back zero body = zero
walk_back (suc n) body =
    let less = walk_back n body in if is_continuation (get_or body (suc n) 0) then less else suc n

abbrev pub walk_back_or_cut : ℕ → List ℕ → ℕ
walk_back_or_cut n body = let k = walk_back n body in if k == 0 then n else k

-- How many bytes chunk `i` takes from the rest of the body, and whether it is cut short there.
unfoldable pub chunk_take : ℕ → ℕ → List ℕ → ℕ × Bool
unfolding walk_back
chunk_take slice i rest =
    if ltb i (bridge_chunk_max_chunks - 1) && ltb slice (length rest)
    then (walk_back_or_cut slice rest, false)
    else if ltb slice (length rest)
    then (walk_back_or_cut (slice - 4) rest, true)
    else (length rest, false)

-- `snprintf` into the 240 bytes of a pending chunk.
unfoldable pub chunk_text : List ℕ → ℕ → ℕ → List ℕ → Bool → List ℕ
chunk_text sender_prefix i needed piece will_truncate = take 239 (
    sender_prefix
    ++ (codes " ("
        ++ (decimal (i + 1)
            ++ (codes "/"
                ++ (decimal needed
                    ++ (codes "): " ++ (piece ++ (if will_truncate then codes " ..." else []))))))))

-- A piece of the body, and whether " ..." follows it.
abbrev pub Piece : Type 0
Piece = List ℕ × Bool

-- The loop over the chunks: `left` chunks from `i` on, from the rest of the body.
unfoldable pub pieces : ℕ → ℕ → ℕ → List ℕ → List Piece
pieces slice zero i rest = []
pieces slice (suc left) i rest =
    let (n, cut) = chunk_take slice i rest in
    (take n rest, cut) ∷ pieces slice left (suc i) (drop n rest)

unfoldable pub texts : List ℕ → ℕ → ℕ → List Piece → List (List ℕ)
texts sender_prefix needed i [] = []
texts sender_prefix needed i ((piece, cut) ∷ ps) =
    chunk_text sender_prefix i needed piece cut ∷ texts sender_prefix needed (suc i) ps

-- The texts of the pending chunks, in order.
unfoldable pub split_into_chunks : List ℕ → List ℕ → List (List ℕ)
unfolding pieces texts
split_into_chunks sender_prefix body =
    let slice = max_slice sender_prefix in
    let needed = needed_chunks slice (length body) in
    texts sender_prefix needed 0 (pieces slice needed 0 body)
