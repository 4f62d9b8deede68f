-- ===== src/Noise/Tests.antt =====
-- The Noise theorems with concrete primitives, which no one should use for secrecy.
use bitchat_meshtastic.Prelude.{ℕ, ◌≡◌, refl, List, [], ◌∷◌, replicate}
use bitchat_meshtastic.Noise.Toy.{toy, toy-Honest}
use bitchat_meshtastic.Noise.Handshake.{
  initiator, responder, transport, failed, Handshake, hs_init, read_msg1_write_msg2,
}
use bitchat_meshtastic.Noise.Handshake.Run.{start, Agreement, handshake_agrees}

abbrev key : ℕ → List ℕ
key n = replicate 32 n

abbrev alice : Handshake
alice = start toy toy-Honest initiator (key 1) (key 2)

abbrev bob : Handshake
bob = start toy toy-Honest responder (key 3) (key 4)

handshake_agrees_example : Agreement toy alice bob
handshake_agrees_example = handshake_agrees toy toy-Honest (key 1) (key 2) (key 3) (key 4)

-- Two ends in the middle of a session.
abbrev sender : Handshake
sender = record alice { phase = transport; send_cs = record { k = key 7; n = 4 } }

abbrev receiver : Handshake
receiver = record bob { phase = transport; recv_cs = record { k = key 7; n = 4 } }

-- A first message that is too short breaks the handshake.
short_msg1 : (read_msg1_write_msg2 toy (1 ∷ 2 ∷ []) bob).0.phase ≡ failed
unfolding read_msg1_write_msg2 hs_init
short_msg1 = refl
