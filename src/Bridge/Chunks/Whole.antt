-- ===== src/Bridge/Chunks/Whole.antt =====
-- Which bodies arrive whole, and which do not.
use bitchat_meshtastic.Prelude.{
  ℕ, zero, suc, ◌+◌, ◌-◌, ◌*◌, ◌/◌, ◌%◌, ◌≤◌, ◌<◌, ◌≡◌, inl, inr, refl, ap, ◌∙◌, arith, ltb,
  if◌then◌else◌, false, Bool-cases, List, [], ◌∷◌, ◌++◌, length, get_or, take, drop, All,
  append-nil, length-drop, take-append-drop, take_all, drop_all,
}
use native.Mathlib.Omega.{div_fact, mod_fact}
use bitchat_meshtastic.Bridge.Chunks.{
  Piece, max_slice, needed_chunks, is_continuation, walk_back, chunk_take, pieces, texts,
  split_into_chunks,
}
use bitchat_meshtastic.Bridge.Chunks.Cover.{joined, length-pieces, needed_chunks_bounds}

-- What is appended behind a list is found behind it.
pub get_or-append : (xs ys : List ℕ) (i : ℕ) → get_or (xs ++ ys) (length xs + i) 0 ≡ get_or ys i 0
get_or-append [] ys i = ap (λ k. get_or ys k 0) (let e : 0 + i ≡ i = omega arith in e)
get_or-append (x ∷ xs) ys i =
    let e : suc (length xs) + i ≡ suc (length xs + i) = omega arith in rw e (get_or-append xs ys i)

-- Plain ASCII, in which every byte begins a character
abbrev pub NoContinuation : List ℕ → Type 0
NoContinuation body = All (λ b. is_continuation b ≡ false) body

NoContinuation-get_or :
    (body : List ℕ) (i : ℕ) → NoContinuation body → is_continuation (get_or body i 0) ≡ false
NoContinuation-get_or [] i h = refl
NoContinuation-get_or (b ∷ body) zero (hb, h) = hb
NoContinuation-get_or (b ∷ body) (suc i) (hb, h) = NoContinuation-get_or body i h

NoContinuation-drop : (n : ℕ) (body : List ℕ) → NoContinuation body → NoContinuation (drop n body)
NoContinuation-drop zero body h = h
NoContinuation-drop (suc n) [] h = h
NoContinuation-drop (suc n) (b ∷ body) (hb, h) = NoContinuation-drop n body h

-- Where a character begins at the end of the slice, the slice is taken whole.
walk_back_none :
    (n : ℕ) (body : List ℕ) → is_continuation (get_or body n 0) ≡ false → walk_back n body ≡ n
unfolding walk_back
walk_back_none zero body h = refl
walk_back_none (suc n) body h = rw h refl

pub chunk_take_whole :
    (slice i : ℕ) (body : List ℕ)
    → i < 3
    → slice < length body
    → is_continuation (get_or body slice 0) ≡ false
    → chunk_take slice i body ≡ (slice, false)
unfolding chunk_take
chunk_take_whole slice i body hi hl h = ground (arith, walk_back_none slice body h)

chunk_take_rest :
    (slice i : ℕ) (body : List ℕ)
    → length body ≤ slice
    → chunk_take slice i body ≡ (length body, false)
unfolding chunk_take
chunk_take_rest slice i body h = ground arith

pieces_nil :
    (slice left i : ℕ)
    → (joined (pieces slice left i []) ≡ []) × All (λ p. p.1 ≡ false) (pieces slice left i [])
unfolding pieces
pieces_nil slice zero i = (refl, tt)
pieces_nil slice (suc left) i =
    let (e, a) = pieces_nil slice left (suc i) in
    rw (chunk_take_rest slice i [] (omega arith)) (e, (refl, a))

positive : (left slice n : ℕ) → slice < n → n ≤ suc left * slice → 0 < left
positive zero slice n h k = absurd (omega arith)
positive (suc left) slice n h k = omega arith

pieces_whole :
    (slice left i : ℕ) (body : List ℕ)
    → left + i ≤ 4
    → length body ≤ left * slice
    → NoContinuation body
    → (joined (pieces slice left i body) ≡ body) × All (λ p. p.1 ≡ false) (pieces slice left i body)
unfolding pieces
pieces_whole slice zero i [] hi hl h = (refl, tt)
pieces_whole slice zero i (b ∷ body) hi hl h = absurd (omega arith)
pieces_whole slice (suc left) i body hi hl h = elim (Bool-cases (ltb slice (length body))) [
  | inl long ↦
      let lt : slice < length body = ground arith in
      let pos : 0 < left = positive left slice (length body) lt hl in
      let (e, a) =
        pieces_whole slice left (suc i) (drop slice body) (omega arith)
          (omega (arith, length-drop slice body)) (NoContinuation-drop slice body h) in
      rw (chunk_take_whole slice i body (omega arith) lt (NoContinuation-get_or body slice h))
        (ap (λ t. take slice body ++ t) e ∙ take-append-drop slice body, (refl, a))
  | inr short ↦
      let le : length body ≤ slice = ground arith in
      let (e, a) = pieces_nil slice left (suc i) in
      rw
        (
          chunk_take_rest slice i body le,
          take_all (length body) body (omega arith),
          drop_all (length body) body (omega arith),
        )
        (ap (λ t. body ++ t) e ∙ append-nil body, (refl, a))
]

pub max_slice_positive : (sender_prefix : List ℕ) → 0 < max_slice sender_prefix
unfolding max_slice
max_slice_positive sender_prefix = ground arith

-- Enough chunks for a body of at most four slices
needed_chunks_enough : (slice n : ℕ) → 0 < slice → n ≤ 4 * slice → n ≤ needed_chunks slice n * slice
unfolding needed_chunks
needed_chunks_enough zero n h k = absurd (omega arith)
needed_chunks_enough (suc s) n h k =
    enough ((n + suc s - 1) / suc s) ((n + suc s - 1) % suc s) (div_fact (n + suc s - 1) s)
      (mod_fact (n + suc s - 1) s)
  where
    enough :
        (q r : ℕ)
        → suc s * q + r ≡ n + suc s - 1
        → r < suc s
        → n
          ≤ (let needed = (if ltb q 4 then q else 4) in if ltb needed 1 then 1 else needed) * suc s
    enough zero r e l = omega arith
    enough (suc q) r e l = elim (Bool-cases (ltb (suc q) 4)) [
      | inl p ↦ rw p (let z : ltb (suc q) 1 ≡ false = ground arith in rw z (omega (arith, e)))
      | inr p ↦ rw p (omega arith)
    ]

-- A body without UTF-8 continuation bytes that is no longer than four slices arrives whole: the
-- chunks carry pieces that make up the body, in order, and none is marked as cut.
pub split_into_chunks_whole :
    (sender_prefix body : List ℕ)
    → length body ≤ 4 * max_slice sender_prefix
    → NoContinuation body
    → (ps : List Piece) × (split_into_chunks sender_prefix body
        ≡ texts sender_prefix (length ps) 0 ps)
      × (joined ps ≡ body)
      × All (λ p. p.1 ≡ false) ps
unfolding split_into_chunks
split_into_chunks_whole sender_prefix body hl h =
    let slice = max_slice sender_prefix in
    let needed = needed_chunks slice (length body) in
    let (e, a) =
      pieces_whole slice needed 0 body (omega (arith, needed_chunks_bounds slice (length body)))
        (needed_chunks_enough slice (length body) (max_slice_positive sender_prefix) hl) h in
    (pieces slice needed 0 body, rw (length-pieces slice needed 0 body) refl, e, a)
