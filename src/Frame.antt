-- ===== src/Frame.antt =====
-- The framing of src/meshtastic/meshtastic_tcp.cpp: `_send_raw` and the receive state machine of
-- `_process_byte`.
pub mod Stream
pub mod Bounds
pub mod Gaps
mod Tests
use bitchat_meshtastic.Prelude.{ℕ, ◌+◌, ◌*◌, ◌/◌, ◌%◌, ◌^◌, ltb, leb, ◌==◌, if◌then◌else◌}
use bitchat_meshtastic.Prelude.{Option, none, some, List, [], ◌∷◌, ◌++◌, length, take}
use bitchat_meshtastic.Config.{mesh_start1, mesh_start2, mesh_max_payload}

pub data RxState : Type 0 where
  wait_start1 wait_start2 read_len_hi read_len_lo read_payload : RxState

-- `_rx_state`, `_rx_payload_len`, and the `_rx_pos` bytes that stand at the front of `_rx_buf`.
pub record Rx : Type 0 where
  pub state : RxState
  pub payload_len : ℕ
  pub buf : List ℕ

abbrev pub idle : Rx
idle = record { state = wait_start1; payload_len = 0; buf = [] }

-- The bytes that `_send_raw` writes; the length is cast to uint16_t.
unfoldable pub send_raw : List ℕ → List ℕ
send_raw payload =
    let len = length payload % 2 ^ 16 in
    mesh_start1 ∷ mesh_start2 ∷ len / 256 ∷ len % 256 ∷ take len payload

-- What a byte does in each state: the new state, and the payload that goes to
-- `_handle_from_radio`, if it is complete.
step_by : RxState → Rx → ℕ → Rx × Option (List ℕ)
step_by wait_start1 r b =
    if b == mesh_start1 then (record r { state = wait_start2 }, none) else (r, none)
step_by wait_start2 r b =
    if b == mesh_start2
    then (record r { state = read_len_hi }, none)
    else (record r { state = wait_start1 }, none)
step_by read_len_hi r b = (record r { state = read_len_lo; payload_len = b * 256 }, none)
step_by read_len_lo r b =
    let len = r.payload_len + b in
    if ltb mesh_max_payload len
    then (record r { state = wait_start1; payload_len = len }, none)
    else (record { state = read_payload; payload_len = len; buf = [] }, none)
step_by read_payload r b =
    let buf = r.buf ++ (b ∷ []) in
    if leb r.payload_len (length buf)
    then (record r { state = wait_start1; buf = buf }, some (take r.payload_len buf))
    else (record r { buf = buf }, none)

unfoldable pub process_byte : Rx → ℕ → Rx × Option (List ℕ)
unfolding step_by
process_byte r b = step_by r.state r b

abbrev pub deliver : Option (List ℕ) → List (List ℕ) → List (List ℕ)
deliver none ps = ps
deliver (some p) ps = p ∷ ps

-- `while (_client.available()) _process_byte(_client.read())`: the payloads handed on, in order.
unfoldable pub feed : Rx → List ℕ → Rx × List (List ℕ)
feed r [] = (r, [])
feed r (b ∷ bs) =
    let (r', p) = process_byte r b in let (r'', ps) = feed r' bs in (r'', deliver p ps)
