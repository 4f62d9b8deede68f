-- ===== src/Ble/Queue/Fifo.antt =====
-- The ring of received writes is a queue of at most three entries.
pub mod Weight
use bitchat_meshtastic.Prelude.{
  eq_of-==, ℕ, zero, suc, ◌+◌, ◌-◌, ◌%◌, ◌≤◌, ◌<◌, ◌≡◌, ◌≢◌, refl, sym, ap, ◌∙◌, arith, ltb, ◌==◌,
  true, false, not, ◌&&◌, if◌then◌else◌, Bool-cases, inl, inr, List, [], ◌∷◌, ◌++◌, length, get_or,
  set, length-set, get_or-set_self, get_or-set_ne,
}
use bitchat_meshtastic.Ble.Queue.{
  RxEntry, RxQueue, zero_rx, fits, on_write, write_all, drain_round, RxStep, write, round,
  run_queue,
}

-- The queue that the ring stands for: the oldest entry first.
unfoldable fifo_write : RxEntry → List RxEntry → List RxEntry
fifo_write e es = if fits e.bytes && ltb (length es) 3 then es ++ (e ∷ []) else es

abbrev fifo_write_all : List RxEntry → List RxEntry → List RxEntry
fifo_write_all [] es = es
fifo_write_all (w ∷ ws) es = fifo_write_all ws (fifo_write w es)

-- The oldest entry is processed, without change, and leaves.
abbrev rest : List RxEntry → List RxEntry
rest [] = []
rest (e ∷ es) = es

unfoldable fifo_round : List RxEntry → List RxEntry → List RxEntry × List (RxEntry × RxEntry)
fifo_round during [] = ([], [])
fifo_round during (e ∷ es) = (rest (fifo_write_all during (e ∷ es)), (e, e) ∷ [])

unfoldable pub run_fifo : List RxStep → List RxEntry → List RxEntry × List (RxEntry × RxEntry)
unfolding fifo_write fifo_round
run_fifo [] es = (es, [])
run_fifo (write e ∷ steps) es = run_fifo steps (fifo_write e es)
run_fifo (round during ∷ steps) es =
    let (es1, out) = fifo_round during es in
    let (es2, outs) = run_fifo steps es1 in (es2, out ++ outs)

abbrev items : List RxEntry → ℕ → ℕ → List RxEntry
items slots tail zero = []
items slots tail (suc n) = get_or slots tail zero_rx ∷ items slots ((tail + 1) % 4) n

abbrev size : RxQueue → ℕ
size q = (q.head + 4 - q.tail) % 4

abbrev pub contents : RxQueue → List RxEntry
contents q = items q.slots q.tail (size q)

abbrev pub IsQueue : RxQueue → Type 0
IsQueue q = (length q.slots ≡ 4) × (q.head < 4) × (q.tail < 4)

length-items : (slots : List RxEntry) (tail n : ℕ) → length (items slots tail n) ≡ n
length-items slots tail zero = refl
length-items slots tail (suc n) = ap suc (length-items slots ((tail + 1) % 4) n)

-- A slot behind the newest entry is none of the entries.
items-set :
    (slots : List RxEntry) (tail n at : ℕ) (e : RxEntry)
    → tail < 4
    → n ≤ 3
    → at ≡ (tail + n) % 4
    → items (set slots at e) tail n ≡ items slots tail n
items-set slots tail zero at e ht hn h = refl
items-set slots tail (suc n) at e ht hn h =
    let apart : at ≢ tail = λ same. omega (arith, h, same) in
    rw (get_or-set_ne slots at tail e zero_rx apart) (
      ap (λ t. get_or slots tail zero_rx ∷ t)
        (items-set slots ((tail + 1) % 4) n at e (omega arith) (omega arith) (omega (arith, h))))

items_last :
    (slots : List RxEntry) (tail n : ℕ)
    → tail < 4
    → items slots tail (suc n) ≡ items slots tail n ++ (get_or slots ((tail + n) % 4) zero_rx ∷ [])
items_last slots tail zero ht = let e : (tail + 0) % 4 ≡ tail = omega arith in rw e refl
items_last slots tail (suc n) ht =
    let e : (tail + suc n) % 4 ≡ ((tail + 1) % 4 + n) % 4 = omega arith in
    rw e
      (ap (λ t. get_or slots tail zero_rx ∷ t) (items_last slots ((tail + 1) % 4) n (omega arith)))

size_full : (q : RxQueue) → IsQueue q → (q.head + 1) % 4 ≡ q.tail → ltb (size q) 3 ≡ false
size_full q h e = let n : size q ≡ 3 = omega arith in rw n refl

size_room : (q : RxQueue) → IsQueue q → (q.head + 1) % 4 ≢ q.tail → size q < 3
size_room q h ne = omega arith

ne_of-== : (a b : ℕ) → (a == b) ≡ false → a ≢ b
ne_of-== a b h = ground arith

ltb_of_lt : (a b : ℕ) → a < b → ltb a b ≡ true
ltb_of_lt a b h = ground arith

contents_grown :
    (e : RxEntry) (q : RxQueue)
    → IsQueue q
    → size q < 3
    → items (set q.slots q.head e) q.tail (((q.head + 1) % 4 + 4 - q.tail) % 4)
      ≡ contents q ++ (e ∷ [])
contents_grown e q h lt =
    let n : ((q.head + 1) % 4 + 4 - q.tail) % 4 ≡ suc (size q) = omega arith in
    let at : (q.tail + size q) % 4 ≡ q.head = omega arith in
    rw n (
      items_last (set q.slots q.head e) q.tail (size q) h.2
      ∙ rw (items-set q.slots q.tail (size q) q.head e h.2 (omega arith) (sym at))
          (rw at (rw (get_or-set_self q.slots q.head e zero_rx (omega arith)) refl)))

on_write-contents :
    (e : RxEntry) (q : RxQueue)
    → IsQueue q
    → IsQueue (on_write e q) × (contents (on_write e q) ≡ fifo_write e (contents q))
unfolding on_write fifo_write
on_write-contents e q h =
    rw (length-items q.slots q.tail (size q)) (elim (Bool-cases (fits e.bytes)) [
      | inl f ↦ rw f (elim (Bool-cases ((q.head + 1) % 4 == q.tail)) [
        | inl full ↦ rw (full, size_full q h (eq_of-== ((q.head + 1) % 4) q.tail full)) (h, refl)
        | inr room ↦
            let lt = size_room q h (ne_of-== ((q.head + 1) % 4) q.tail room) in
            rw (room, ltb_of_lt (size q) 3 lt)
              (omega (arith, length-set q.slots q.head e), contents_grown e q h lt)
      ])
      | inr f ↦ rw f (h, refl)
    ])

on_write-tail : (e : RxEntry) (q : RxQueue) → (on_write e q).tail ≡ q.tail
unfolding on_write
on_write-tail e q = elim (Bool-cases (fits e.bytes && not ((q.head + 1) % 4 == q.tail))) [
  | inl p ↦ rw p refl
  | inr p ↦ rw p refl
]

write_all-contents :
    (es : List RxEntry) (q : RxQueue)
    → IsQueue q
    → IsQueue (write_all es q)
      × (contents (write_all es q) ≡ fifo_write_all es (contents q))
      × ((write_all es q).tail ≡ q.tail)
write_all-contents [] q h = (h, refl, refl)
write_all-contents (e ∷ es) q h =
    let (ok, same) = on_write-contents e q h in
    let (oks, sames, tail) = write_all-contents es (on_write e q) ok in
    (oks, rw (sym same) sames, tail ∙ on_write-tail e q)

-- A write leaves the oldest entry where it is.
fifo_write_all-oldest :
    (ws : List RxEntry) (e : RxEntry) (es : List RxEntry)
    → fifo_write_all ws (e ∷ es) ≡ e ∷ rest (fifo_write_all ws (e ∷ es))
unfolding fifo_write
fifo_write_all-oldest [] e es = refl
fifo_write_all-oldest (w ∷ ws) e es = elim (Bool-cases (fits w.bytes && ltb (length (e ∷ es)) 3)) [
  | inl p ↦ rw p (fifo_write_all-oldest ws e (es ++ (w ∷ [])))
  | inr p ↦ rw p (fifo_write_all-oldest ws e es)
]

abbrev next_tail : RxQueue → ℕ → RxQueue
next_tail q t = record { slots = q.slots; head = q.head; tail = (t + 1) % 4 }

popped :
    (q : RxQueue) (t : ℕ) (e : RxEntry) (es : List RxEntry)
    → IsQueue q
    → q.tail ≡ t
    → contents q ≡ e ∷ es
    → IsQueue (next_tail q t) × (contents (next_tail q t) ≡ es) × (get_or q.slots t zero_rx ≡ e)
popped q t e es h at whole =
    let n : size q ≡ suc (length es) =
      omega (arith, sym (length-items q.slots q.tail (size q)), ap length whole) in
    let n' : (q.head + 4 - (q.tail + 1) % 4) % 4 ≡ length es = omega (arith, n) in
    let whole' : items q.slots q.tail (suc (length es)) ≡ e ∷ es =
      ap (items q.slots q.tail) (sym n) ∙ whole in
    rw (sym at) (omega arith, rw n' (ap rest whole'), ap (λ l. get_or l 0 zero_rx) whole')

drain_round-contents :
    (during : List RxEntry) (q : RxQueue)
    → IsQueue q
    → IsQueue (drain_round during q).0
      × (contents (drain_round during q).0 ≡ (fifo_round during (contents q)).0)
      × ((drain_round during q).1 ≡ (fifo_round during (contents q)).1)
unfolding drain_round fifo_round
drain_round-contents during q h = elim (Bool-cases (q.tail == q.head)) [
  | inl p ↦
      let n : size q ≡ 0 = omega (arith, eq_of-== q.tail q.head p) in rw (p, n) (h, refl, refl)
  | inr p ↦
      let n : size q ≡ suc (size (next_tail q q.tail)) = omega (arith, ne_of-== q.tail q.head p) in
      let e = get_or q.slots q.tail zero_rx in
      let es = contents (next_tail q q.tail) in
      let whole : contents q ≡ e ∷ es = ap (items q.slots q.tail) n in
      let q1 = write_all during q in
      let (ok, written, tail) = write_all-contents during q h in
      let (ok', left, oldest) =
        popped q1 q.tail e (rest (fifo_write_all during (e ∷ es))) ok tail
          (written ∙ ap (fifo_write_all during) whole ∙ fifo_write_all-oldest during e es) in
      rw (p, whole) (ok', left, ap (λ x. (e, x) ∷ []) oldest)
]

-- A well-formed ring is a queue of at most three entries: whatever the order of the writes and of the rounds that
-- empty it, writes during a round included, the ring stays well-formed, holds what the queue holds, and each
-- round processes the oldest entry, which is the same at the end of the round as at its beginning.
pub run_queue-run_fifo :
    (steps : List RxStep) (q : RxQueue)
    → IsQueue q
    → IsQueue (run_queue steps q).0
      × (contents (run_queue steps q).0 ≡ (run_fifo steps (contents q)).0)
      × ((run_queue steps q).1 ≡ (run_fifo steps (contents q)).1)
unfolding run_queue run_fifo
run_queue-run_fifo [] q h = (h, refl, refl)
run_queue-run_fifo (write e ∷ steps) q h =
    let (ok, same) = on_write-contents e q h in
    rw (sym same, run_fifo) (run_queue-run_fifo steps (on_write e q) ok)
run_queue-run_fifo (round during ∷ steps) q h =
    let (ok, same, out) = drain_round-contents during q h in
    let (oks, sames, outs) = run_queue-run_fifo steps (drain_round during q).0 ok in
    rw (sym same, sym out, run_fifo) (oks, sames, ap (λ o. (drain_round during q).1 ++ o) outs)
