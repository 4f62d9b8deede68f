-- ===== src/Ble/Fragments/Sizes.antt =====
-- The sizes of the two sides do not agree.
use bitchat_meshtastic.Prelude.{
  ℕ, zero, suc, ◌/◌, ◌%◌, ◌^◌, ◌≤◌, ◌<◌, ◌≡◌, refl, arith, ltb, false, none, List, ◌∷◌, length,
  take, drop, length-take,
}
use bitchat_meshtastic.Ble.Fragments.{
  FragReassembly, total_frags, frag_payload, payloads_from, fragment_payloads, handle_fragment,
}

-- A chunk of more than 256 bytes is refused.
refused :
    (now conn a b c d i t : ℕ) (chunk : List ℕ) (slots : List FragReassembly)
    → 256 < length chunk
    → handle_fragment now conn (a ∷ b ∷ c ∷ d ∷ i ∷ t ∷ chunk) slots ≡ (slots, none)
unfolding handle_fragment
refused now conn a b c d i t chunk slots h = ground arith

-- The first fragment that `_send_fragmented` makes of a packet of 257 to 2848 bytes is refused by
-- `_handle_fragment`, whose slots stay as they are, so the packet cannot be reassembled.
pub first_fragment_refused :
    (now conn msg_id : ℕ) (pkt : List ℕ) (slots : List FragReassembly)
    → 256 < length pkt
    → length pkt ≤ 2848
    → (first : List ℕ) × (rest : List (List ℕ)) × (fragment_payloads msg_id pkt ≡ first ∷ rest)
      × (handle_fragment now conn first slots ≡ (slots, none))
unfolding fragment_payloads
first_fragment_refused now conn msg_id pkt slots h k =
    let total : ℕ = total_frags (length pkt) in
    let few : ltb 8 total ≡ false = ground arith in
    let (rest, e) = head total total (omega arith) in
    (
      frag_payload msg_id 0 total (take 356 pkt),
      rest,
      rw few e,
      refused now conn (msg_id / 2 ^ 24 % 256) (msg_id / 2 ^ 16 % 256) (msg_id / 2 ^ 8 % 256)
          (msg_id % 256) 0 (total % 256) (take 356 pkt) slots (omega (arith, length-take 356 pkt)),
    )
  where
    head :
        (count total : ℕ)
        → 0 < count
        → (rest : List (List ℕ)) × (payloads_from count msg_id 0 total pkt
            ≡ frag_payload msg_id 0 total (take 356 pkt) ∷ rest)
    head zero total h = absurd (omega arith)
    head (suc count) total h = (payloads_from count msg_id 1 total (drop 356 pkt), refl)
