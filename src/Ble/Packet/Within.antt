-- ===== src/Ble/Packet/Within.antt =====
-- The payload of a packet lies within the packet.
use bitchat_meshtastic.Prelude.{
  ℕ, ◌+◌, ◌-◌, ◌≤◌, arith, ltb, ◌==◌, ◌||◌, Bool-cases, inl, inr, Option, none, some, List, length,
  get_or, drop, length-take, length-drop, if◌then◌else◌,
}
use bitchat_meshtastic.Proto.Field.{Slice, slice, negative, is_negative, to_slice}
use bitchat_meshtastic.Ble.Padding.{all_equal, unpad_packet}
use bitchat_meshtastic.Ble.Packet.{
  Packet, v1_len, v2_len, is_v2, header_len_of, payload_offset, is_truncated, read_packet,
}

unfoldable pub IsWithin : ℕ → Slice → Type 0
IsWithin n negative = Unit {0}
IsWithin n (slice bytes) = length bytes ≤ n

IsWithin-le : (n k : ℕ) (s : Slice) → n ≤ k → IsWithin n s → IsWithin k s
unfolding IsWithin
IsWithin-le n k negative h w = tt
IsWithin-le n k (slice bytes) h w = omega (arith, h, w)

to_slice-IsWithin :
    (buf : List ℕ) (len off : ℕ) → IsWithin (length buf) (to_slice (drop off buf) len)
unfolding IsWithin
to_slice-IsWithin buf len off = elim (Bool-cases (is_negative len)) [
  | inl below ↦ rw below tt
  | inr above ↦ rw above (omega (arith, length-take len (drop off buf), length-drop off buf))
]

pub unpad_packet-shorter : (buf : List ℕ) → length (unpad_packet buf) ≤ length buf
unfolding unpad_packet
unpad_packet-shorter buf =
    let pv = get_or buf (length buf - 1) 0 in
    elim (Bool-cases ((pv == 0) || ltb (length buf) pv)) [
      | inl no_padding ↦ rw no_padding (omega arith)
      | inr may ↦ elim (Bool-cases (all_equal pv (drop (length buf - pv) buf))) [
        | inl padded ↦ rw (may, padded) (omega (arith, length-take (length buf - pv) buf))
        | inr unpadded ↦ rw (may, unpadded) (omega arith)
      ]
    ]

abbrev pub IsRead : ℕ → Option Packet → Type 0
IsRead n none = Unit {0}
IsRead n (some p) = IsWithin n p.payload

pub IsRead-le : (n k : ℕ) (o : Option Packet) → n ≤ k → IsRead n o → IsRead k o
IsRead-le n k none h r = tt
IsRead-le n k (some p) h r = IsWithin-le n k p.payload h r

pub read_packet-IsRead : (pkt : List ℕ) → IsRead (length pkt) (read_packet pkt)
unfolding read_packet
read_packet-IsRead pkt =
    let len = (if is_v2 pkt then v2_len pkt else v1_len pkt) in
    elim (Bool-cases (ltb (length pkt) (header_len_of pkt + 8))) [
      | inl runt ↦ rw runt tt
      | inr long ↦ elim (Bool-cases (is_truncated pkt len)) [
        | inl cut ↦ rw (long, cut) tt
        | inr whole ↦ rw (long, whole) (to_slice-IsWithin pkt len (payload_offset pkt))
      ]
    ]
