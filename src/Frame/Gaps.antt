-- ===== src/Frame/Gaps.antt =====
-- Two byte sequences after which the receiver loses a frame that follows at once.
use bitchat_meshtastic.Prelude.{ℕ, ◌/◌, ◌%◌, ◌^◌, ◌<◌, ◌≡◌, ◌≢◌, ◌∙◌, refl, arith}
use bitchat_meshtastic.Prelude.{List, [], ◌∷◌, ◌++◌, length, All}
use bitchat_meshtastic.Prelude.{append-nil, take_all}
use bitchat_meshtastic.Config.{mesh_start1, mesh_start2}
use bitchat_meshtastic.Frame.{wait_start1, Rx, idle, send_raw, process_byte, feed}
use bitchat_meshtastic.Frame.Stream.{feed-noise}

-- A frame whose bytes behind the first start byte hold no other start byte.
abbrev pub QuietFrame : List ℕ → Type 0
QuietFrame payload =
    (length payload < 2 ^ 15)
    × (length payload / 256 ≢ mesh_start1)
    × (length payload % 256 ≢ mesh_start1)
    × All (λ b. b ≢ mesh_start1) payload

-- Without its first start byte such a frame is noise.
feed-headless :
    (r : Rx) (payload : List ℕ)
    → r.state ≡ wait_start1
    → QuietFrame payload
    → feed r (mesh_start2 ∷ length payload / 256 ∷ length payload % 256 ∷ payload) ≡ (r, [])
feed-headless r payload h (small, hi, lo, quiet) =
    let bs : List ℕ = mesh_start2 ∷ length payload / 256 ∷ length payload % 256 ∷ payload in
    rw (← append-nil bs)
      (feed-noise r bs [] h (omega arith, (hi, (lo, quiet))) ∙ unfold feed in refl)

abbrev swallowed : Rx
swallowed = record idle { buf = mesh_start1 ∷ [] }

feed_swallow :
    (bs : List ℕ)
    → feed idle (mesh_start1 ∷ mesh_start2 ∷ 0 ∷ 0 ∷ mesh_start1 ∷ bs)
      ≡ (let (r, ps) = feed swallowed bs in (r, [] ∷ ps))
unfolding feed process_byte
feed_swallow bs = refl

feed_double : (bs : List ℕ) → feed idle (mesh_start1 ∷ mesh_start1 ∷ bs) ≡ feed idle bs
unfolding feed process_byte
feed_double bs = refl

-- An empty frame takes the next byte for its payload: the frame behind it is lost, and an empty
-- payload is handed on.
pub feed-empty_frame :
    (payload : List ℕ)
    → QuietFrame payload
    → feed idle (send_raw [] ++ send_raw payload)
      ≡ (record idle { buf = mesh_start1 ∷ [] }, [] ∷ [])
unfolding send_raw
feed-empty_frame payload q =
    let e : length payload % 2 ^ 16 ≡ length payload = omega (arith, q.0) in
    rw (e, take_all (length payload) payload (omega arith))
      (feed_swallow _ ∙ rw (feed-headless swallowed payload refl q))

-- A start byte directly in front of a frame hides the frame.
pub feed-double_start :
    (payload : List ℕ) → QuietFrame payload → (feed idle (mesh_start1 ∷ send_raw payload)).1 ≡ []
unfolding send_raw
feed-double_start payload q =
    let e : length payload % 2 ^ 16 ≡ length payload = omega (arith, q.0) in
    rw (e, take_all (length payload) payload (omega arith))
      (rw (feed_double, feed-headless idle payload refl q))
