-- ===== src/Frame/Stream.antt =====
-- The receiver reads back what the sender frames.
use bitchat_meshtastic.Prelude.{
  ℕ, ◌+◌, ◌*◌, ◌/◌, ◌%◌, ◌^◌, ◌≤◌, ◌<◌, ◌≡◌, ◌≢◌, ◌∙◌, refl, arith, ap,
}
use bitchat_meshtastic.Prelude.{none, List, [], ◌∷◌, ◌++◌, length, All}
use bitchat_meshtastic.Prelude.{append_assoc, length-append, take_all}
use bitchat_meshtastic.Config.{mesh_start1, mesh_start2}
use bitchat_meshtastic.Frame.{wait_start1, read_payload, Rx, idle, send_raw, process_byte, feed}

-- The receiver in the middle of a payload, `got` bytes of which are in the buffer.
abbrev reading : ℕ → List ℕ → Rx
reading len got = record { state = read_payload; payload_len = len; buf = got }

-- The receiver behind a frame.
abbrev pub after : List ℕ → Rx
after payload = record { state = wait_start1; payload_len = length payload; buf = payload }

feed-payload :
    (got left rest : List ℕ) (b : ℕ)
    → feed (reading (length (got ++ (b ∷ left))) got) ((b ∷ left) ++ rest)
      ≡ (let (r, ps) = feed (after (got ++ (b ∷ left))) rest in (r, (got ++ (b ∷ left)) ∷ ps))
unfolding feed process_byte
feed-payload got [] rest b =
    ground
      (arith, length-append got (b ∷ []), take_all (length (got ++ (b ∷ []))) (got ++ (b ∷ [])))
feed-payload got (c ∷ left) rest b = ground (
  arith,
  length-append got (b ∷ c ∷ left),
  length-append got (b ∷ []),
  append_assoc got (b ∷ []) (c ∷ left),
  feed-payload (got ++ (b ∷ [])) left rest c,
)

-- Four header bytes take the receiver into the payload.
feed-header :
    (len v : ℕ) (got bs : List ℕ)
    → len ≤ 512
    → feed
        (record { state = wait_start1; payload_len = v; buf = got })
        (mesh_start1 ∷ mesh_start2 ∷ len / 256 ∷ len % 256 ∷ bs)
      ≡ feed (reading len []) bs
unfolding feed process_byte
feed-header len v got bs h =
    let e : len / 256 * 256 + len % 256 ≡ len = omega arith in ground (arith, e)

-- A frame of 1 to 512 bytes, whatever follows, delivers its payload, and the receiver waits for
-- the next frame.
feed-send_raw :
    (v b : ℕ) (got payload rest : List ℕ)
    → length (b ∷ payload) ≤ 512
    → feed
        (record { state = wait_start1; payload_len = v; buf = got })
        (send_raw (b ∷ payload) ++ rest)
      ≡ (let (r, ps) = feed (after (b ∷ payload)) rest in (r, (b ∷ payload) ∷ ps))
unfolding send_raw
feed-send_raw v b got payload rest h =
    let e : length (b ∷ payload) % 2 ^ 16 ≡ length (b ∷ payload) = omega arith in
    rw (e, take_all (length payload) payload (omega arith))
      (feed-header (length (b ∷ payload)) v got ((b ∷ payload) ++ rest) h
        ∙ feed-payload [] payload rest b)

abbrev pub Fits : List ℕ → Type 0
Fits p = (0 < length p) × (length p ≤ 512)

abbrev pub send_all : List (List ℕ) → List ℕ
send_all [] = []
send_all (p ∷ ps) = send_raw p ++ send_all ps

feed-send_all_from :
    (v : ℕ) (got : List ℕ) (ps : List (List ℕ))
    → All Fits ps
    → (feed (record { state = wait_start1; payload_len = v; buf = got }) (send_all ps)).1 ≡ ps
feed-send_all_from v got [] h = unfold feed in refl
feed-send_all_from v got ([] ∷ ps) h = absurd (omega arith)
feed-send_all_from v got ((b ∷ p) ∷ ps) (hp, hs) =
    rw (feed-send_raw v b got p (send_all ps) hp.1)
      (ap (λ t. (b ∷ p) ∷ t) (feed-send_all_from (length (b ∷ p)) (b ∷ p) ps hs))

-- A stream of frames of 1 to 512 bytes is received as the same payloads, in the same order.
pub feed-send_all : (ps : List (List ℕ)) → All Fits ps → (feed idle (send_all ps)).1 ≡ ps
feed-send_all ps h = feed-send_all_from 0 [] ps h

-- Bytes other than the first start byte are passed over between frames: the 32 wake bytes, and
-- what other text the device writes.
pub feed-noise :
    (r : Rx) (noise bs : List ℕ)
    → r.state ≡ wait_start1
    → All (λ b. b ≢ mesh_start1) noise
    → feed r (noise ++ bs) ≡ feed r bs
unfolding feed
feed-noise r [] bs h hn = refl
feed-noise r (b ∷ noise) bs h (hb, hn) = rw (pass, feed-noise r noise bs h hn) refl
  where
    pass : process_byte r b ≡ (r, none)
    pass = unfold process_byte in ground (arith, hb)
