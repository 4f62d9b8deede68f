-- ===== src/Ble/Queue/Fifo/Weight.antt =====
-- The bytes of the entries in the ring.
use bitchat_meshtastic.Prelude.{
  ℕ, suc, ◌+◌, ◌%◌, ◌≤◌, ◌≡◌, refl, sym, ap, ◌∙◌, arith, ltb, ◌==◌, false, ◌&&◌, Bool-cases, inl,
  inr, List, [], ◌∷◌, ◌++◌, length, get_or, append-nil,
}
use bitchat_meshtastic.Ble.Queue.{RxEntry, RxQueue, zero_rx, fits, on_write}
use bitchat_meshtastic.Ble.Queue.Fifo.{
  fifo_write, items, size, contents, IsQueue, on_write-contents, on_write-tail, next_tail, popped,
  ne_of-==,
}

-- Each entry counts one more than its bytes.
abbrev pub weight : List RxEntry → ℕ
weight [] = 0
weight (e ∷ es) = length e.bytes + 1 + weight es

weight-append : (es fs : List RxEntry) → weight (es ++ fs) ≡ weight es + weight fs
weight-append [] fs = omega arith
weight-append (e ∷ es) fs = omega (arith, weight-append es fs)

-- A ring that has the entries of `q` and behind them others of at most `n`.
abbrev pub IsGrown : RxQueue → ℕ → RxQueue → Type 0
IsGrown q n q' =
    (extra : List RxEntry) × IsQueue q'
    × (contents q' ≡ contents q ++ extra)
    × (weight extra ≤ n)
    × (q'.tail ≡ q.tail)

pub IsGrown-refl : (q : RxQueue) → IsQueue q → IsGrown q 0 q
IsGrown-refl q h = ([], h, sym (append-nil (contents q)), omega arith, refl)

pub on_write-IsGrown :
    (e : RxEntry) (q : RxQueue) → IsQueue q → IsGrown q (length e.bytes + 1) (on_write e q)
unfolding fifo_write
on_write-IsGrown e q h =
    let (ok, same) = on_write-contents e q h in
    elim (Bool-cases (fits e.bytes && ltb (length (contents q)) 3)) [
      | inl stored ↦ (e ∷ [], ok, same ∙ rw stored refl, omega arith, on_write-tail e q)
      | inr dropped ↦ (
        [],
        ok,
        same ∙ rw dropped (sym (append-nil (contents q))),
        omega arith,
        on_write-tail e q,
      )
    ]

-- The oldest entry leaves the ring that has grown.
pub next_tail-weight :
    (q q' : RxQueue) (n : ℕ)
    → IsQueue q
    → (q.tail == q.head) ≡ false
    → IsGrown q n q'
    → let q'' : RxQueue = record { slots = q'.slots; head = q'.head; tail = (q'.tail + 1) % 4 } in
      IsQueue q''
      × (weight (contents q'') + (length (get_or q.slots q.tail zero_rx).bytes + 1)
          ≤ weight (contents q) + n)
next_tail-weight q q' n h busy (extra, ok, grown, few, tail) =
    let e = get_or q.slots q.tail zero_rx in
    let es = contents (next_tail q q.tail) in
    let n' : size q ≡ suc (size (next_tail q q.tail)) =
      omega (arith, ne_of-== q.tail q.head busy) in
    let whole : contents q ≡ e ∷ es = ap (items q.slots q.tail) n' in
    let (ok', left, oldest) =
      popped q' q'.tail e (es ++ extra) ok refl (grown ∙ ap (λ c. c ++ extra) whole) in
    (ok', rw (left, whole) (omega (arith, weight-append es extra, few)))
