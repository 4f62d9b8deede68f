-- ===== src/Ble/Incoming/Negative.antt =====
-- A length that is negative as an `int`.
use bitchat_meshtastic.Prelude.{ℕ, ◌/◌, ◌%◌, ◌^◌, List, ◌∷◌, take}
use bitchat_meshtastic.Proto.Field.{negative}
use bitchat_meshtastic.Ble.Packet.{Packet}

-- A packet of version 2, unsigned and with no recipient: the length of its payload has four bytes.
abbrev pub v2_packet : ℕ → ℕ → ℕ → ℕ → ℕ → ℕ → ℕ → List ℕ → List ℕ
v2_packet type ttl ts a b c d behind =
    2
    ∷ type
    ∷ ttl
    ∷ ts / 2 ^ 56 % 256
    ∷ ts / 2 ^ 48 % 256
    ∷ ts / 2 ^ 40 % 256
    ∷ ts / 2 ^ 32 % 256
    ∷ ts / 2 ^ 24 % 256
    ∷ ts / 2 ^ 16 % 256
    ∷ ts / 2 ^ 8 % 256
    ∷ ts % 256
    ∷ 0
    ∷ a
    ∷ b
    ∷ c
    ∷ d
    ∷ behind

abbrev negative_packet : ℕ → ℕ → ℕ → List ℕ → Packet
negative_packet type ttl len behind = record {
  type = type;
  ttl = ttl;
  flags = 0;
  header_len = 16;
  sender_id = take 8 behind;
  offset = 24;
  payload_len = len;
  payload = negative;
}
