-- ===== src/Bridge/Chunks/Cover.antt =====
-- What the chunks hold, and how long they are.
use bitchat_meshtastic.Prelude.{
  ℕ, zero, suc, ◌+◌, ◌-◌, ◌≤◌, ◌<◌, ◌≡◌, refl, ap, ◌∙◌, arith, Bool, true, false, List, [], ◌∷◌,
  ◌++◌, length, take, drop, All, decimal, append_assoc, length-append, length-take,
  take-append-drop,
}
use bitchat_meshtastic.Bridge.Chunks.{
  Piece, max_slice, needed_chunks, walk_back, chunk_take, chunk_text, pieces, texts,
  split_into_chunks,
}

pub walk_back-le : (n : ℕ) (body : List ℕ) → walk_back n body ≤ n
unfolding walk_back
walk_back-le zero body = omega arith
walk_back-le (suc n) body = ground (arith, walk_back-le n body)

-- A chunk takes at most a slice.
chunk_take-le : (slice i : ℕ) (rest : List ℕ) → (chunk_take slice i rest).0 ≤ slice
unfolding chunk_take
chunk_take-le slice i rest = ground (arith, walk_back-le slice rest, walk_back-le (slice - 4) rest)

-- A chunk cut short leaves room for " ...".
chunk_take-cut :
    (slice i : ℕ) (rest : List ℕ)
    → (chunk_take slice i rest).1 ≡ true
    → (chunk_take slice i rest).0 ≤ slice - 4
unfolding chunk_take
chunk_take-cut slice i rest h =
    ground (arith, walk_back-le slice rest, walk_back-le (slice - 4) rest)

-- The pieces one after the other
abbrev pub joined : List Piece → List ℕ
joined [] = []
joined ((piece, cut) ∷ ps) = piece ++ joined ps

-- The pieces are consecutive parts of the body, from its start.
pieces_prefix :
    (slice left i : ℕ) (body : List ℕ)
    → (rest : List ℕ) × (joined (pieces slice left i body) ++ rest ≡ body)
unfolding pieces
pieces_prefix slice zero i body = (body, refl)
pieces_prefix slice (suc left) i body =
    let n = (chunk_take slice i body).0 in
    let (rest, e) = pieces_prefix slice left (suc i) (drop n body) in
    (
      rest,
      append_assoc (take n body) (joined (pieces slice left (suc i) (drop n body))) rest
          ∙ (ap (λ t. take n body ++ t) e ∙ take-append-drop n body),
    )

length-pieces-le :
    (slice left i : ℕ) (body : List ℕ)
    → All
        (λ p. (length p.0 ≤ slice) × ((p.1 ≡ true) → length p.0 ≤ slice - 4))
        (pieces slice left i body)
unfolding pieces
length-pieces-le slice zero i body = tt
length-pieces-le slice (suc left) i body = (
  (
    omega (arith, length-take (chunk_take slice i body).0 body, chunk_take-le slice i body),
    λ h. omega (arith, length-take (chunk_take slice i body).0 body, chunk_take-cut slice i body h),
  ),
  length-pieces-le slice left (suc i) (drop (chunk_take slice i body).0 body),
)

length-inside :
    (p a b piece mark : List ℕ)
    → length (p ++ (32 ∷ 40 ∷ (a ++ (47 ∷ (b ++ (41 ∷ 58 ∷ 32 ∷ (piece ++ mark)))))))
      ≡ length p + length a + length b + length piece + length mark + 6
length-inside p a b piece mark = omega (
  arith,
  length-append p (32 ∷ 40 ∷ (a ++ (47 ∷ (b ++ (41 ∷ 58 ∷ 32 ∷ (piece ++ mark)))))),
  length-append a (47 ∷ (b ++ (41 ∷ 58 ∷ 32 ∷ (piece ++ mark)))),
  length-append b (41 ∷ 58 ∷ 32 ∷ (piece ++ mark)),
  length-append piece mark,
)

length-decimal_digit : (d : ℕ) → d < 10 → length (decimal d) ≡ 1
unfolding decimal
length-decimal_digit d h = ground arith

-- The prefix, " (i/N): ", the piece and the mark fit in the payload of one packet.
length-chunk_text-le :
    (sender_prefix piece : List ℕ) (i needed : ℕ) (cut : Bool)
    → i < 9
    → needed < 10
    → length sender_prefix ≤ 79
    → length piece ≤ max_slice sender_prefix
    → ((cut ≡ true) → length piece ≤ max_slice sender_prefix - 4)
    → length (chunk_text sender_prefix i needed piece cut) ≤ 233
unfolding chunk_text max_slice
length-chunk_text-le sender_prefix piece i needed true hi hn hp hl hc =
    let inside =
      length-inside sender_prefix (decimal (i + 1)) (decimal needed) piece
        (32 ∷ 46 ∷ 46 ∷ 46 ∷ []) in
    ground (
      arith,
      inside,
      length-take 239 (
          sender_prefix
          ++ (32
              ∷ 40
              ∷ (decimal (i + 1)
                  ++ (47
                      ∷ (decimal needed
                          ++ (41 ∷ 58 ∷ 32 ∷ (piece ++ (32 ∷ 46 ∷ 46 ∷ 46 ∷ [])))))))),
      length-decimal_digit (i + 1) (omega arith),
      length-decimal_digit needed hn,
      hc refl,
    )
length-chunk_text-le sender_prefix piece i needed false hi hn hp hl hc =
    let inside = length-inside sender_prefix (decimal (i + 1)) (decimal needed) piece [] in
    ground (
      arith,
      inside,
      length-take 239 (
          sender_prefix
          ++ (32
              ∷ 40
              ∷ (decimal (i + 1) ++ (47 ∷ (decimal needed ++ (41 ∷ 58 ∷ 32 ∷ (piece ++ []))))))),
      length-decimal_digit (i + 1) (omega arith),
      length-decimal_digit needed hn,
    )

texts-le :
    (sender_prefix : List ℕ) (needed i : ℕ) (ps : List Piece)
    → i + length ps < 10
    → needed < 10
    → length sender_prefix ≤ 79
    → All
        (λ p.
          (length p.0 ≤ max_slice sender_prefix)
          × ((p.1 ≡ true) → length p.0 ≤ max_slice sender_prefix - 4))
        ps
    → All (λ t. length t ≤ 233) (texts sender_prefix needed i ps)
unfolding texts
texts-le sender_prefix needed i [] hi hn hp h = tt
texts-le sender_prefix needed i ((piece, cut) ∷ ps) hi hn hp ((hl, hc), hs) = (
  length-chunk_text-le sender_prefix piece i needed cut (omega arith) hn hp hl hc,
  texts-le sender_prefix needed (suc i) ps (omega arith) hn hp hs,
)

pub length-pieces : (slice left i : ℕ) (body : List ℕ) → length (pieces slice left i body) ≡ left
unfolding pieces
length-pieces slice zero i body = refl
length-pieces slice (suc left) i body =
    ap suc (length-pieces slice left (suc i) (drop (chunk_take slice i body).0 body))

pub needed_chunks_bounds :
    (slice body_len : ℕ) → (1 ≤ needed_chunks slice body_len) × (needed_chunks slice body_len ≤ 4)
unfolding needed_chunks
needed_chunks_bounds slice body_len = ground arith

texts-length :
    (sender_prefix : List ℕ) (needed i : ℕ) (ps : List Piece)
    → length (texts sender_prefix needed i ps) ≡ length ps
unfolding texts
texts-length sender_prefix needed i [] = refl
texts-length sender_prefix needed i (p ∷ ps) = ap suc (texts-length sender_prefix needed (suc i) ps)

pub split_into_chunks_count :
    (sender_prefix body : List ℕ)
    → (1 ≤ length (split_into_chunks sender_prefix body))
      × (length (split_into_chunks sender_prefix body) ≤ 4)
unfolding split_into_chunks
split_into_chunks_count sender_prefix body =
    let slice = max_slice sender_prefix in
    let needed = needed_chunks slice (length body) in
    let n = length-pieces slice needed 0 body in
    let l = texts-length sender_prefix needed 0 (pieces slice needed 0 body) in
    let b = needed_chunks_bounds slice (length body) in
    (omega (arith, n, l, b), omega (arith, n, l, b))

-- A message is split into one to four chunks, each of which fits in the payload of one packet (233
-- bytes), for a prefix of at most 79 bytes, as the caller's buffer holds.
pub chunks_fit :
    (sender_prefix body : List ℕ)
    → length sender_prefix ≤ 79
    → (1 ≤ length (split_into_chunks sender_prefix body))
      × (length (split_into_chunks sender_prefix body) ≤ 4)
      × All (λ t. length t ≤ 233) (split_into_chunks sender_prefix body)
unfolding split_into_chunks
chunks_fit sender_prefix body h =
    let slice = max_slice sender_prefix in
    let needed = needed_chunks slice (length body) in
    let ps = pieces slice needed 0 body in
    let n = length-pieces slice needed 0 body in
    let l = texts-length sender_prefix needed 0 ps in
    let b = needed_chunks_bounds slice (length body) in
    (
      omega (arith, n, l, b),
      omega (arith, n, l, b),
      texts-le sender_prefix needed 0 ps (omega (arith, n, b)) (omega (arith, b)) h
          (length-pieces-le slice needed 0 body),
    )

-- Whatever the body, the chunks carry consecutive pieces of it, from its start, in order and
-- numbered from 1.
pub split_into_chunks_prefix :
    (sender_prefix body : List ℕ)
    → (ps : List Piece) × (rest : List ℕ) × (split_into_chunks sender_prefix body
        ≡ texts sender_prefix (length ps) 0 ps)
      × (joined ps ++ rest ≡ body)
unfolding split_into_chunks
split_into_chunks_prefix sender_prefix body =
    let slice = max_slice sender_prefix in
    let needed = needed_chunks slice (length body) in
    let (rest, e) = pieces_prefix slice needed 0 body in
    (pieces slice needed 0 body, rest, rw (length-pieces slice needed 0 body) refl, e)
