-- ===== src/Bridge/Chunks/Lost.antt =====
-- A body that loses its last byte, without a mark.
use bitchat_meshtastic.Prelude.{
  ℕ, zero, suc, ◌+◌, ◌-◌, ◌*◌, ◌/◌, ◌%◌, ◌≤◌, ◌<◌, ◌≡◌, refl, ap, arith, ltb, if◌then◌else◌, true,
  false, List, [], ◌∷◌, ◌++◌, length, get_or, length-append, take-append, drop-append,
}
use native.Mathlib.Omega.{div_fact, mod_fact}
use bitchat_meshtastic.Bridge.Chunks.{
  max_slice, needed_chunks, is_continuation, walk_back, chunk_take, chunk_text, pieces, texts,
  split_into_chunks,
}
use bitchat_meshtastic.Bridge.Chunks.Whole.{get_or-append, chunk_take_whole}

chunk_take_back :
    (n i : ℕ) (body : List ℕ)
    → i < 3
    → 0 < n
    → suc n < length body
    → is_continuation (get_or body (suc n) 0) ≡ true
    → is_continuation (get_or body n 0) ≡ false
    → chunk_take (suc n) i body ≡ (n, false)
unfolding chunk_take walk_back
chunk_take_back zero i body hi hn hl c l = absurd (omega arith)
chunk_take_back (suc n) i body hi hn hl c l = rw (c, l) (ground arith)

two_needed : (s : ℕ) → needed_chunks (suc s) (2 * suc s) ≡ 2
unfolding needed_chunks
two_needed s =
    two ((2 * suc s + suc s - 1) / suc s) ((2 * suc s + suc s - 1) % suc s)
      (div_fact (2 * suc s + suc s - 1) s) (mod_fact (2 * suc s + suc s - 1) s)
  where
    two :
        (q r : ℕ)
        → suc s * q + r ≡ 2 * suc s + suc s - 1
        → r < suc s
        → (let needed = (if ltb q 4 then q else 4) in if ltb needed 1 then 1 else needed) ≡ 2
    two zero r e l = absurd (omega (arith, e))
    two (suc zero) r e l = absurd (omega (arith, e))
    two (suc (suc zero)) r e l = refl
    two (suc (suc (suc q))) r e l = absurd (omega (arith, e))

max_slice_large : (sender_prefix : List ℕ) → 2 ≤ max_slice sender_prefix
unfolding max_slice
max_slice_large sender_prefix = ground arith

pieces_lose :
    (n : ℕ) (xs ys : List ℕ) (lead cont last : ℕ)
    → length xs ≡ suc n
    → length ys ≡ n
    → is_continuation lead ≡ false
    → is_continuation cont ≡ true
    → is_continuation last ≡ false
    → pieces (suc (suc n)) 2 0 (xs ++ (lead ∷ cont ∷ (ys ++ (last ∷ []))))
      ≡ (xs, false) ∷ (lead ∷ cont ∷ ys, false) ∷ []
unfolding pieces
pieces_lose n xs ys lead cont last hx hy hl hc ht =
    rw
      (
        first,
        take-append xs rest (suc n) (omega arith),
        drop-append xs rest (suc n) (omega arith),
        second,
      )
      (ap (λ t. (xs, false) ∷ (lead ∷ cont ∷ t, false) ∷ [])
        (take-append ys (last ∷ []) n (omega arith)))
  where
    rest : List ℕ
    rest = lead ∷ cont ∷ (ys ++ (last ∷ []))

    at : (i k : ℕ) → k ≡ length xs + i → get_or (xs ++ rest) k 0 ≡ get_or rest i 0
    at i k e = rw e (get_or-append xs rest i)

    end : get_or (ys ++ (last ∷ [])) n 0 ≡ last
    end = let e : n ≡ length ys + 0 = omega (arith, hy) in rw e (get_or-append ys (last ∷ []) 0)

    first : chunk_take (suc (suc n)) 0 (xs ++ rest) ≡ (suc n, false)
    first =
        chunk_take_back (suc n) 0 (xs ++ rest) (omega arith) (omega arith)
          (omega (arith, length-append xs rest, length-append ys (last ∷ [])))
          (rw (at 1 (suc (suc n)) (omega (arith, hx))) hc)
          (rw (at 0 (suc n) (omega (arith, hx))) hl)

    second : chunk_take (suc (suc n)) 1 rest ≡ (suc (suc n), false)
    second =
        chunk_take_whole (suc (suc n)) 1 rest (omega arith)
          (omega (arith, length-append ys (last ∷ []))) (rw end ht)

-- A body of two slices whose first slice ends inside a two-byte character, between plain text, is
-- sent as two chunks without its last byte, and without the mark of a cut.
pub split_into_chunks_loses :
    (sender_prefix xs ys : List ℕ) (lead cont last : ℕ)
    → length xs ≡ max_slice sender_prefix - 1
    → length ys ≡ max_slice sender_prefix - 2
    → is_continuation lead ≡ false
    → is_continuation cont ≡ true
    → is_continuation last ≡ false
    → split_into_chunks sender_prefix (xs ++ (lead ∷ cont ∷ (ys ++ (last ∷ []))))
      ≡ chunk_text sender_prefix 0 2 xs false
        ∷ chunk_text sender_prefix 1 2 (lead ∷ cont ∷ ys) false
        ∷ []
unfolding split_into_chunks
split_into_chunks_loses sender_prefix xs ys lead cont last hx hy hl hc ht =
    lose (max_slice sender_prefix) (max_slice_large sender_prefix) hx hy
  where
    body : List ℕ
    body = xs ++ (lead ∷ cont ∷ (ys ++ (last ∷ [])))

    lose :
        (slice : ℕ)
        → 2 ≤ slice
        → length xs ≡ slice - 1
        → length ys ≡ slice - 2
        → texts sender_prefix
            (needed_chunks slice (length body))
            0
            (pieces slice (needed_chunks slice (length body)) 0 body)
          ≡ chunk_text sender_prefix 0 2 xs false
            ∷ chunk_text sender_prefix 1 2 (lead ∷ cont ∷ ys) false
            ∷ []
    lose zero h hx hy = absurd (omega arith)
    lose (suc zero) h hx hy = absurd (omega arith)
    lose (suc (suc n)) h hx hy =
        let e : length body ≡ 2 * suc (suc n) = omega (
          arith,
          length-append xs (lead ∷ cont ∷ (ys ++ (last ∷ []))),
          length-append ys (last ∷ []),
          hx,
          hy,
        ) in
        rw (e, two_needed (suc n))
          (ap (λ ps. texts sender_prefix 2 0 ps)
            (pieces_lose n xs ys lead cont last (omega (arith, hx)) (omega (arith, hy)) hl hc ht))
