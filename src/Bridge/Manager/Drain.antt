-- ===== src/Bridge/Manager/Drain.antt =====
-- The queue of chunks is sent in order, one chunk at a time.
use bitchat_meshtastic.Prelude.{
  ℕ, zero, suc, ◌+◌, ◌^◌, ◌<◌, ◌≡◌, refl, ap, arith, leb, true, false, List, [], ◌∷◌, ◌++◌, length,
  get_or, drop, drop_all, sub32, add32,
}
use bitchat_meshtastic.Bridge.Manager.{Action, mesh_send_text, Bridge}
use bitchat_meshtastic.Bridge.Manager.Tick.{drain_pending_chunks}

module _ {K : Type 0} where
  -- `_drain_pending_chunks` at a sequence of times, with the mesh connected.
  unfoldable pub drain_at : List ℕ → Bridge K → Bridge K × List (Action K)
  drain_at [] st = (st, [])
  drain_at (now ∷ times) st =
      let (st', out) = drain_pending_chunks now true st in
      let (st'', out') = drain_at times st' in (st'', out ++ out')

  abbrev pub sends : List (List ℕ) → List (Action K)
  sends [] = []
  sends (text ∷ texts) = mesh_send_text text ∷ sends texts

-- Each time is due: at or after the time that is set, and the time is set 1500 ms on.
abbrev pub AreDue : ℕ → List ℕ → Type 0
AreDue at [] = Unit {0}
AreDue at (now ∷ times) = (sub32 now at < 2 ^ 31) × AreDue (add32 now 1500) times

drop-get_or :
    (k : ℕ) (xs : List (List ℕ)) → k < length xs → drop k xs ≡ get_or xs k [] ∷ drop (suc k) xs
drop-get_or k [] h = absurd (omega arith)
drop-get_or zero (x ∷ xs) h = refl
drop-get_or (suc k) (x ∷ xs) h = drop-get_or k xs (omega arith)

module _ {K : Type 0} where
  -- At as many due times as there are chunks left, these are all sent, in order, and the queue is
  -- empty.
  pub drain_at-sends :
      (times : List ℕ) (st : Bridge K)
      → st.pending_next + length times ≡ length st.pending
      → AreDue st.pending_send_at_ms times
      → ((drain_at times st).1 ≡ sends (drop st.pending_next st.pending))
        × ((drain_at times st).0.pending_next ≡ length (drain_at times st).0.pending)
  unfolding drain_at
  drain_at-sends [] st h d =
      (rw (drop_all st.pending_next st.pending (omega arith)) refl, omega arith)
  drain_at-sends (now ∷ times) st h (due, d) =
      let st' : Bridge K = record st {
        pending_next = suc st.pending_next;
        pending_send_at_ms = add32 now 1500;
      } in
      let one : drain_pending_chunks now true st
          ≡ (st', mesh_send_text (get_or st.pending st.pending_next []) ∷ []) =
        unfold drain_pending_chunks in
        (let a : leb (length st.pending) st.pending_next ≡ false = ground arith in
          let b : leb (2 ^ 31) (sub32 now st.pending_send_at_ms) ≡ false = ground arith in
          rw (a, b) refl) in
      let (out, end) = drain_at-sends times st' (omega arith) d in
      rw (one, drop-get_or st.pending_next st.pending (omega arith))
        (ap (λ t. mesh_send_text (get_or st.pending st.pending_next []) ∷ t) out, end)
