-- ===== src/Frame/Bounds.antt =====
-- The receive buffer is never overrun, on any input.
use bitchat_meshtastic.Prelude.{ℕ, ◌-◌, ◌≤◌, ◌≡◌, refl, arith}
use bitchat_meshtastic.Prelude.{Option, none, some, List, [], ◌∷◌, ◌++◌, length, All}
use bitchat_meshtastic.Prelude.{length-append, length-take}
use bitchat_meshtastic.Frame.{
  RxState, wait_start1, wait_start2, read_len_hi, read_len_lo, read_payload, Rx, idle, step_by,
  process_byte, deliver, feed,
}

-- While a payload is read, its length is at most 512 and the bytes read are fewer, so the write
-- position lies in `_rx_buf`, which has 516 bytes.
abbrev pub InBuffer : RxState → Rx → Type 0
InBuffer read_payload r = (r.payload_len ≤ 512) × (length r.buf ≤ r.payload_len - 1)
InBuffer _ r = length r.buf ≤ 512

abbrev Small : Option (List ℕ) → Type 0
Small none = Unit {0}
Small (some p) = length p ≤ 512

step_by-InBuffer :
    (s : RxState) (r : Rx) (b : ℕ)
    → r.state ≡ s
    → InBuffer s r
    → InBuffer (step_by s r b).0.state (step_by s r b).0 × Small (step_by s r b).1
unfolding step_by
step_by-InBuffer wait_start1 r b e h = ground arith
step_by-InBuffer wait_start2 r b e h = ground arith
step_by-InBuffer read_len_hi r b e h = ground arith
step_by-InBuffer read_len_lo r b e h = ground arith
step_by-InBuffer read_payload r b e h =
    ground (arith, length-append r.buf (b ∷ []), length-take r.payload_len (r.buf ++ (b ∷ [])))

-- A byte keeps the invariant, and a payload that is handed on has at most 512 bytes.
pub process_byte-InBuffer :
    (r : Rx) (b : ℕ)
    → InBuffer r.state r
    → InBuffer (process_byte r b).0.state (process_byte r b).0 × Small (process_byte r b).1
unfolding process_byte
process_byte-InBuffer r b h = step_by-InBuffer r.state r b refl h

deliver-Small :
    (p : Option (List ℕ)) (ps : List (List ℕ))
    → Small p
    → All (λ q. length q ≤ 512) ps
    → All (λ q. length q ≤ 512) (deliver p ps)
deliver-Small none ps h hs = hs
deliver-Small (some p) ps h hs = (h, hs)

feed-InBuffer_from :
    (bs : List ℕ) (r : Rx)
    → InBuffer r.state r
    → InBuffer (feed r bs).0.state (feed r bs).0 × All (λ q. length q ≤ 512) (feed r bs).1
unfolding feed
feed-InBuffer_from [] r h = (h, tt)
feed-InBuffer_from (b ∷ bs) r h =
    let (keeps, small) = process_byte-InBuffer r b h in
    let (keeps', small') = feed-InBuffer_from bs (process_byte r b).0 keeps in
    (keeps', deliver-Small (process_byte r b).1 (feed (process_byte r b).0 bs).1 small small')

-- On any sequence of bytes, from the idle state on, the write position stays in the buffer and no
-- payload of more than 512 bytes is handed on.
pub feed-InBuffer :
    (bs : List ℕ)
    → InBuffer (feed idle bs).0.state (feed idle bs).0 × All (λ q. length q ≤ 512) (feed idle bs).1
feed-InBuffer bs = feed-InBuffer_from bs idle (omega arith)
