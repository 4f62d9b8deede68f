-- ===== src/Ble/Tests.antt =====
-- The theorems of the packets' parts at concrete inputs.
use bitchat_meshtastic.Prelude.{
  ℕ, ◌-◌, ◌%◌, ◌≡◌, refl, arith, none, some, List, [], ◌∷◌, ◌++◌, length, replicate, codes, set,
  true, false,
}
use bitchat_meshtastic.Ble.Padding.{pad_target, pad_packet, unpad_packet, unpad_packet-pad_packet}
use bitchat_meshtastic.Ble.Queue.{
  RxEntry, empty_queue, on_write, drain_round, RxStep, write, round, run_queue,
}
use bitchat_meshtastic.Ble.Queue.Fifo.{contents, IsQueue, run_fifo, run_queue-run_fifo}
use bitchat_meshtastic.Ble.Peers.{PeerSession, zero_peer}
use bitchat_meshtastic.Ble.Relay.{
  Relay, empty_relay, relay_hash_from, any_seen, send_to_others, relay_packet,
}
use bitchat_meshtastic.Ble.Relay.Once.{relay_record_all, relay_packet_again}
use bitchat_meshtastic.Ble.Fragments.{empty_slots, fragment_payloads, handle_fragment}
use bitchat_meshtastic.Ble.Fragments.Sizes.{first_fragment_refused}

abbrev two_tlvs : List (ℕ × List ℕ)
two_tlvs = (1, codes "Ann") ∷ (5, codes "hi") ∷ []

unpad_packet-pad_packet_example :
    unpad_packet (pad_packet (codes "packet") 2048)
    ≡ codes "packet" ++ replicate (250 - 250 % 256) (250 % 256)
unfolding pad_target
unpad_packet-pad_packet_example = unpad_packet-pad_packet (codes "packet") 2048 (omega arith)

-- A packet of 600 bytes keeps 256 bytes of its padding.
unpad_long : length (unpad_packet (pad_packet (replicate 600 7) 2048)) ≡ 856
unfolding unpad_packet pad_packet
unpad_long = refl

-- Two fragments of 256 bytes and fewer, in the wrong order, are reassembled.
reassembled_out_of_order :
    (handle_fragment 5 1
      (0 ∷ 0 ∷ 0 ∷ 9 ∷ 0 ∷ 2 ∷ codes "ab")
      (handle_fragment 4 1 (0 ∷ 0 ∷ 0 ∷ 9 ∷ 1 ∷ 2 ∷ codes "cd") empty_slots).0).1
    ≡ some (codes "abcd")
unfolding handle_fragment
reassembled_out_of_order = refl

first_fragment_refused_example :
    (first : List ℕ) × (rest : List (List ℕ)) × (fragment_payloads 9 (replicate 600 7)
      ≡ first ∷ rest)
    × (handle_fragment 5 1 first empty_slots ≡ (empty_slots, none))
first_fragment_refused_example =
    first_fragment_refused 5 1 9 (replicate 600 7) empty_slots (omega arith) (omega arith)

abbrev received : ℕ → RxEntry
received b = record { bytes = b ∷ []; conn_handle = 1 }

-- Four writes, of which the last finds the ring full, a round with a write, and another one.
abbrev some_steps : List RxStep
some_steps =
    write (received 1)
    ∷ write (received 2)
    ∷ write (received 3)
    ∷ write (received 4)
    ∷ round (received 5 ∷ [])
    ∷ write (received 6)
    ∷ round []
    ∷ []

run_some_steps :
    (run_queue some_steps empty_queue).1 ≡ (received 1, received 1) ∷ (received 2, received 2) ∷ []
unfolding run_queue on_write drain_round
run_some_steps = refl

run_queue-run_fifo_example :
    IsQueue (run_queue some_steps empty_queue).0
    × (contents (run_queue some_steps empty_queue).0
        ≡ (run_fifo some_steps (contents empty_queue)).0)
    × ((run_queue some_steps empty_queue).1 ≡ (run_fifo some_steps (contents empty_queue)).1)
run_queue-run_fifo_example = run_queue-run_fifo some_steps empty_queue (omega arith)

abbrev three_peers : List PeerSession
three_peers =
    record zero_peer { active = true; conn_handle = 1 }
    ∷ record zero_peer { active = false; conn_handle = 2 }
    ∷ record zero_peer { active = true; conn_handle = 3 }
    ∷ []

abbrev relayed : List ℕ
relayed = 1 ∷ 4 ∷ 7 ∷ replicate 300 9

abbrev relay_after : Relay
relay_after =
    relay_record_all ((1200, 77) ∷ []) (relay_packet 1000 relayed 1 three_peers empty_relay).0

-- It goes to the other active peer, padded, with a TTL of 6.
relayed_to_one :
    (relay_packet 1000 relayed 1 three_peers empty_relay).1
    ≡ (
      record zero_peer { active = true; conn_handle = 3 },
      (1 ∷ 4 ∷ 6 ∷ replicate 300 9) ++ replicate 209 209,
    )
      ∷ []
unfolding relay_packet pad_packet any_seen relay_hash_from send_to_others
relayed_to_one = refl

relay_packet_again_example :
    relay_packet 2000 (set relayed 2 5) 3 three_peers relay_after ≡ (relay_after, [])
unfolding relay_hash_from any_seen
relay_packet_again_example =
    relay_packet_again 1000 2000 5 1 3 relayed three_peers three_peers ((1200, 77) ∷ []) empty_relay
      (omega arith) (omega arith) refl (omega arith) refl
