-- ===== src/Ble/PacketTests.antt =====
-- The theorems on packets and identities at concrete inputs.
use bitchat_meshtastic.Prelude.{
  ℕ, ◌≡◌, refl, arith, some, List, [], ◌∷◌, ◌++◌, replicate, codes, set, take,
}
use bitchat_meshtastic.Ble.Tlv.{tlv_encode, tlv_find}
use bitchat_meshtastic.Ble.Padding.{pad_target, pad_packet, unpad_packet}
use bitchat_meshtastic.Ble.Packet.{packet_header, packet_body, signed_packet, read_packet}
use bitchat_meshtastic.Ble.Packet.RoundTrip.{packet_read, read_packet-signed_packet}
use bitchat_meshtastic.Ble.Identity.{
  KeyLibrary, keypair_of, derive_info, clamp, bitchat_derive_keypair,
}
use bitchat_meshtastic.Ble.Identity.Derived.{IsClamped, bitchat_derive_keypair-IsClamped}
use bitchat_meshtastic.Ble.Relay.{decrement_ttl}
use bitchat_meshtastic.Ble.Peers.{on_message, find_peer, Effect}
use bitchat_meshtastic.Ble.Send.{Radio}
use bitchat_meshtastic.Ble.Handle.{message_from}
use bitchat_meshtastic.Ble.Incoming.{BitchatBle, identified, clock_set, with_peer, process_incoming}
use bitchat_meshtastic.Ble.Incoming.Checks.{invalid_signature-dropped}
use bitchat_meshtastic.Ble.Incoming.Unsigned.{unsigned_message-accepted}
use bitchat_meshtastic.Ble.Incoming.Altered.{unpadded_packet-dropped, relayed_announce-dropped}
use bitchat_meshtastic.Ble.Incoming.Negative.{v2_packet}
use bitchat_meshtastic.Ble.Scenes.{by_ttl, ends_in_one, radio, peer, bridge, entry_of}

abbrev hi : List ℕ
hi = tlv_encode 5 (codes "hi")

abbrev sender : List ℕ
sender = replicate 32 8

abbrev key : List ℕ
key = replicate 32 4

read_packet-signed_packet_example :
    read_packet (unpad_packet (pad_packet (signed_packet by_ttl 2 9 2 sender hi key) 2048))
    ≡ some (packet_read 2 2 sender hi)
unfolding signed_packet packet_body packet_header tlv_encode pad_target
read_packet-signed_packet_example =
    read_packet-signed_packet by_ttl 2 9 2 2048 sender hi key (omega arith) (omega arith) refl
      (omega arith) (omega arith)

-- A message whose last 64 bytes are no signature.
abbrev forged : List ℕ
forged = packet_body 2 9 2 sender hi ++ replicate 64 200

invalid_signature-dropped_example :
    process_incoming radio (entry_of forged) (bridge peer)
    ≡ some (
      with_peer radio 0 (identified (take 8 sender) peer) (bridge peer),
      clock_set radio forged ++ [],
    )
unfolding unpad_packet read_packet find_peer packet_body packet_header tlv_encode
invalid_signature-dropped_example =
    invalid_signature-dropped radio (entry_of forged) (bridge peer) forged
      (packet_read 2 2 sender hi) 0 key refl refl refl refl (λ e. absurd (omega (arith, e))) refl
      (omega arith) refl

abbrev unsigned : List ℕ
unsigned = packet_body 2 9 0 sender hi

unsigned_message-accepted_example :
    (name : List ℕ) × (st' : BitchatBle) × (outs : List Effect) × (process_incoming radio
        (entry_of unsigned)
        (bridge peer)
      ≡ some (
        st',
        clock_set radio unsigned
            ++ (on_message (message_from 1000 (take 8 sender) name (codes "hi")) ∷ outs),
      ))
unfolding unpad_packet find_peer packet_body packet_header tlv_encode
unsigned_message-accepted_example =
    unsigned_message-accepted radio (entry_of unsigned) (bridge peer) 0 9 104 sender (codes "i") key
      refl refl refl refl (omega arith) (omega arith)

abbrev radio_one : Radio
radio_one = record radio { signer = ends_in_one }

abbrev leave : List ℕ
leave = signed_packet ends_in_one 3 9 2 sender [] key

unpadded_packet-dropped_example :
    (pkt : List ℕ) × (process_incoming radio_one (entry_of leave) (bridge peer)
      ≡ some (
        with_peer radio_one 0 (identified (take 8 sender) peer) (bridge peer),
        clock_set radio_one pkt ++ [],
      ))
unfolding find_peer
unpadded_packet-dropped_example =
    unpadded_packet-dropped radio_one (entry_of leave) (bridge peer) 0 3 9 sender []
      (replicate 63 5) key refl refl refl refl (omega arith) (omega arith)

abbrev keys : List ℕ
keys = tlv_encode 3 key

abbrev lowered : List ℕ
lowered = pad_packet (decrement_ttl (signed_packet by_ttl 1 9 2 sender keys key)) 2048

relayed_announce-dropped_example :
    process_incoming radio (entry_of lowered) (bridge peer)
    ≡ some (
      with_peer radio 0 (identified (take 8 sender) peer) (bridge peer),
      clock_set radio (set (packet_body 1 9 2 sender keys ++ replicate 64 7) 2 6) ++ [],
    )
unfolding find_peer packet_body packet_header tlv_encode tlv_find
relayed_announce-dropped_example =
    relayed_announce-dropped radio (entry_of lowered) (bridge peer) 0 9 sender keys key key refl
      refl refl refl refl refl (omega arith) (omega arith)

abbrev minus_one : List ℕ
minus_one = v2_packet 0x11 7 9 255 255 255 255 (replicate 8 200)

-- The derived bytes are the node's ID, over and over.
abbrev library : KeyLibrary
library = record {
  noise_sha256 = λ bytes. some (take 32 bytes);
  hkdf = λ salt master info.
      some (take 32 (info ++ (info ++ (info ++ (info ++ (info ++ (info ++ info)))))));
  base_mult = λ priv. some (replicate 32 9);
}

abbrev seed : ℕ → List ℕ
seed purpose =
    let info = 1 ∷ 2 ∷ 0 ∷ 0 ∷ purpose ∷ [] in
    take 32 (info ++ (info ++ (info ++ (info ++ (info ++ (info ++ info))))))

bitchat_derive_keypair-IsClamped_example :
    (bitchat_derive_keypair by_ttl library key 513
      ≡ some (
          keypair_of
            (clamp (seed 1))
            (replicate 32 9)
            (by_ttl.create_keypair (seed 2))
            (replicate 32 9)))
    × IsClamped (clamp (seed 1))
unfolding derive_info
bitchat_derive_keypair-IsClamped_example =
    bitchat_derive_keypair-IsClamped by_ttl library key (seed 1) (replicate 32 9) (seed 2)
      (replicate 32 9) 513 refl refl refl refl refl
