-- ===== src/Bridge/Manager/Echo.antt =====
-- What the bridge drops as a repetition.
use bitchat_meshtastic.Prelude.{ℕ, ◌≤◌, ◌≡◌, List, [], ◌∷◌, length, take}
use bitchat_meshtastic.Bridge.Message.{hash, empty_message}
use bitchat_meshtastic.Bridge.Dedup.{Dedup, record_all}
use bitchat_meshtastic.Bridge.Manager.{Bridge}

abbrev text_records : ℕ → List (List ℕ) → List (ℕ × ℕ)
text_records now [] = []
text_records now (text ∷ texts) =
    (now, hash (record empty_message { text = take 511 text })) ∷ text_records now texts

-- At most four hashes were recorded in between.
record Recorded (before after : Dedup) : Type 0 where
  records : List (ℕ × ℕ)
  few : length records ≤ 4
  all : after ≡ record_all records before
