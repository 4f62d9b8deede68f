-- ===== src/Frame/Tests.antt =====
-- The framing theorems at concrete inputs.
use bitchat_meshtastic.Prelude.{◌≤◌, ◌≡◌, refl, arith, [], ◌∷◌, ◌++◌, length, All}
use bitchat_meshtastic.Prelude.{replicate}
use bitchat_meshtastic.Frame.{idle, feed, process_byte}
use bitchat_meshtastic.Frame.Stream.{feed-send_all, send_all}
use bitchat_meshtastic.Frame.Bounds.{InBuffer, feed-InBuffer}

feed_wake_and_frame :
    (feed idle (replicate 32 0xC3 ++ (0x94 ∷ 0xC3 ∷ 0 ∷ 2 ∷ 8 ∷ 5 ∷ []))).1 ≡ (8 ∷ 5 ∷ []) ∷ []
unfolding feed process_byte
feed_wake_and_frame = refl

-- A length of more than 512 is passed over.
feed_too_large : (feed idle (0x94 ∷ 0xC3 ∷ 2 ∷ 1 ∷ 8 ∷ 5 ∷ [])).1 ≡ []
unfolding feed process_byte
feed_too_large = refl

feed-send_all_example :
    (feed idle (send_all ((8 ∷ 5 ∷ []) ∷ (9 ∷ []) ∷ []))).1 ≡ (8 ∷ 5 ∷ []) ∷ (9 ∷ []) ∷ []
feed-send_all_example = feed-send_all ((8 ∷ 5 ∷ []) ∷ (9 ∷ []) ∷ []) (omega arith)

feed-InBuffer_example :
    InBuffer (feed idle (0x94 ∷ 0xC3 ∷ [])).0.state (feed idle (0x94 ∷ 0xC3 ∷ [])).0
    × All (λ q. length q ≤ 512) (feed idle (0x94 ∷ 0xC3 ∷ [])).1
feed-InBuffer_example = feed-InBuffer (0x94 ∷ 0xC3 ∷ [])
