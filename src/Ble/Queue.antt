-- ===== src/Ble/Queue.antt =====
-- The ring of received writes of src/bitchat/bitchat_ble.cpp: `onWrite`, which the Bluetooth task
-- calls, and the loop of `loop` that empties it, with their fields in src/bitchat/bitchat_ble.h. The
-- notifications of a peripheral (`_connect_to_peripheral`) enter the ring in the same way.
pub mod Fifo
use bitchat_meshtastic.Prelude.{
  ℕ, ◌+◌, ◌%◌, ltb, leb, ◌==◌, if◌then◌else◌, Bool, not, ◌&&◌, List, [], ◌∷◌, ◌++◌, length, get_or,
  set, replicate,
}
use bitchat_meshtastic.Config.{bitchat_ble_mtu}

abbrev pub rx_buf_size : ℕ
rx_buf_size = bitchat_ble_mtu

abbrev pub rx_queue_size : ℕ
rx_queue_size = 4

pub record RxEntry : Type 0 where
  pub bytes : List ℕ
  pub conn_handle : ℕ

pub record RxQueue : Type 0 where
  pub slots : List RxEntry
  pub head : ℕ
  pub tail : ℕ

abbrev pub zero_rx : RxEntry
zero_rx = record { bytes = []; conn_handle = 0 }

abbrev pub empty_queue : RxQueue
empty_queue = record { slots = replicate rx_queue_size zero_rx; head = 0; tail = 0 }

abbrev pub fits : List ℕ → Bool
fits bytes = ltb 0 (length bytes) && leb (length bytes) rx_buf_size

-- A write that is empty, too long, or finds the ring full is dropped.
unfoldable pub on_write : RxEntry → RxQueue → RxQueue
on_write e q =
    let next = (q.head + 1) % rx_queue_size in
    if fits e.bytes && not (next == q.tail)
    then record { slots = set q.slots q.head e; head = next; tail = q.tail }
    else q

abbrev pub write_all : List RxEntry → RxQueue → RxQueue
write_all [] q = q
write_all (e ∷ es) q = write_all es (on_write e q)

-- One round of the loop that empties the ring, with the writes that come in while the entry is
-- processed in its place. It gives the entry as it stands at the beginning of the processing and at
-- the end of it; the round is not entered when the ring is empty.
unfoldable pub drain_round : List RxEntry → RxQueue → RxQueue × List (RxEntry × RxEntry)
drain_round during q =
    if q.tail == q.head
    then (q, [])
    else (let q1 = write_all during q in
        (
          record { slots = q1.slots; head = q1.head; tail = (q.tail + 1) % rx_queue_size },
          (get_or q.slots q.tail zero_rx, get_or q1.slots q.tail zero_rx) ∷ [],
        ))

-- What the two tasks do, in any order.
pub data RxStep : Type 0 where
  write : RxEntry → RxStep
  round : List RxEntry → RxStep

unfoldable pub run_queue : List RxStep → RxQueue → RxQueue × List (RxEntry × RxEntry)
run_queue [] q = (q, [])
run_queue (write e ∷ steps) q = run_queue steps (on_write e q)
run_queue (round during ∷ steps) q =
    let (q1, out) = drain_round during q in let (q2, outs) = run_queue steps q1 in (q2, out ++ outs)
