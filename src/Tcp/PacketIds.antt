-- ===== src/Tcp/PacketIds.antt =====
-- Packet ids do not repeat soon, whatever the random numbers.
use bitchat_meshtastic.Prelude.{
  ℕ, suc, ◌+◌, ◌%◌, ◌≤◌, ◌<◌, ◌≡◌, ◌≢◌, ap, arith, List, [], ◌∷◌, length, All,
}
use bitchat_meshtastic.Tcp.{generate_packet_id}

-- The ids of consecutive calls, one for each random number
unfoldable pub packet_ids : List ℕ → ℕ → List ℕ
packet_ids [] counter = []
packet_ids (rand ∷ rands) counter =
    let id = generate_packet_id rand counter in id ∷ packet_ids rands id

abbrev pub AreDistinct : List ℕ → Type 0
AreDistinct [] = Unit {0}
AreDistinct (id ∷ ids) = All (λ other. other ≢ id) ids × AreDistinct ids

low_bits : (rand counter : ℕ) → generate_packet_id rand counter % 1024 ≡ (counter + 1) % 1024
unfolding generate_packet_id
low_bits rand counter = omega arith

-- The low ten bits count on from those of `start`.
count_on :
    (rands : List ℕ) (counter start d : ℕ)
    → counter % 1024 ≡ (start + d) % 1024
    → d + length rands < 1024
    → All (λ other. other ≢ start) (packet_ids rands counter)
unfolding packet_ids
count_on [] counter start d e h = tt
count_on (rand ∷ rands) counter start d e h = (
  (λ same. differ same),
  count_on rands (generate_packet_id rand counter) start (suc d)
      (omega (arith, low_bits rand counter, e)) (omega arith),
)
  where
    differ : generate_packet_id rand counter ≢ start
    differ same = absurd (omega (arith, ap (λ x. x % 1024) same, low_bits rand counter, e))

-- The ids of up to 1024 consecutive calls are distinct.
pub packet_ids-AreDistinct :
    (rands : List ℕ) (counter : ℕ) → length rands ≤ 1024 → AreDistinct (packet_ids rands counter)
unfolding packet_ids
packet_ids-AreDistinct [] counter h = tt
packet_ids-AreDistinct (rand ∷ rands) counter h =
    let id = generate_packet_id rand counter in
    (
      count_on rands id id 0 (omega arith) (omega arith),
      packet_ids-AreDistinct rands id (omega arith),
    )
