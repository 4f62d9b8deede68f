-- ===== src/Ble/Session/Drain.antt =====
-- The loop that empties the ring comes to an end.
use bitchat_meshtastic.Prelude.{
  ℕ, zero, suc, ◌+◌, ◌≤◌, ◌≡◌, refl, arith, ◌==◌, false, Bool-cases, inl, inr, Option, none, some,
  List, ◌++◌, length, get_or, eq_of-==,
}
use bitchat_meshtastic.Ble.Fragments.Held.{held_bytes}
use bitchat_meshtastic.Ble.Queue.{zero_rx}
use bitchat_meshtastic.Ble.Queue.Fifo.{contents, IsQueue}
use bitchat_meshtastic.Ble.Queue.Fifo.Weight.{weight, IsGrown-refl, next_tail-weight}
use bitchat_meshtastic.Ble.Peers.{Effect}
use bitchat_meshtastic.Ble.Send.{Radio}
use bitchat_meshtastic.Ble.Incoming.{BitchatBle, process_incoming}
use bitchat_meshtastic.Ble.Incoming.Pending.{Does, process_incoming-Does}
use bitchat_meshtastic.Ble.Session.{advanced, and_then, drain_queue}

-- The bytes of the ring and of the slots, each entry counting one more.
abbrev pub pending_bytes : BitchatBle → ℕ
pending_bytes st = weight (contents st.queue) + held_bytes st.slots

-- A run that is no fault has emptied the ring.
abbrev pub IsDrained : Option (BitchatBle × List Effect) → Type 0
IsDrained none = Unit {0}
IsDrained (some (st, out)) = IsQueue st.queue × (st.queue.tail ≡ st.queue.head)

behind_IsDrained :
    (out : List Effect) (m : Option (BitchatBle × List Effect))
    → IsDrained m
    → IsDrained (elim m [ none ↦ none | some (st, outs) ↦ some (st, out ++ outs) ])
behind_IsDrained out none h = tt
behind_IsDrained out (some (st, outs)) h = h

module _ (r : Radio) where
  round_done :
      (fuel size : ℕ) (st : BitchatBle) (m : Option (BitchatBle × List Effect))
      → IsQueue st.queue
      → (st.queue.tail == st.queue.head) ≡ false
      → length (get_or st.queue.slots st.queue.tail zero_rx).bytes ≡ size
      → pending_bytes st ≤ suc fuel
      → Does size st m
      → ((st' : BitchatBle)
          → IsQueue st'.queue
          → pending_bytes st' ≤ fuel
          → IsDrained (drain_queue r fuel st'))
      → IsDrained (and_then r m (λ st'. drain_queue r fuel (advanced r st')))
  round_done fuel size st none ring busy e few does next = tt
  round_done fuel size st (some (st', out)) ring busy e few (n, grown, h) next =
      let (ring', lighter) = next_tail-weight st.queue st'.queue n ring busy grown in
      behind_IsDrained out (drain_queue r fuel (advanced r st'))
        (next (advanced r st') ring' (omega (arith, lighter, h, e, few)))

  -- Where the ring is well-formed, as many rounds as there are bytes in the ring and in the slots of fragments, each entry
  -- counting one more, empty the ring, or a round faults: a packet that is reassembled enters the ring behind,
  -- but it has fewer bytes than its fragments had.
  pub drain_queue-IsDrained :
      (fuel : ℕ) (st : BitchatBle)
      → IsQueue st.queue
      → pending_bytes st ≤ fuel
      → IsDrained (drain_queue r fuel st)
  unfolding drain_queue
  drain_queue-IsDrained zero st ring few = elim (Bool-cases (st.queue.tail == st.queue.head)) [
    | inl empty ↦ (ring, eq_of-== st.queue.tail st.queue.head empty)
    | inr busy ↦
        let (ring', lighter) =
          next_tail-weight st.queue st.queue 0 ring busy (IsGrown-refl st.queue ring) in
        absurd (omega (arith, lighter, few))
  ]
  drain_queue-IsDrained (suc fuel) st ring few =
      elim (Bool-cases (st.queue.tail == st.queue.head)) [
        | inl empty ↦ rw empty (ring, eq_of-== st.queue.tail st.queue.head empty)
        | inr busy ↦
            let e = get_or st.queue.slots st.queue.tail zero_rx in
            rw busy (
              round_done fuel (length e.bytes) st (process_incoming r e st) ring busy refl few
                (process_incoming-Does r e st ring) (drain_queue-IsDrained fuel))
      ]
