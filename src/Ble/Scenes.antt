-- ===== src/Ble/Scenes.antt =====
-- Two bridges with concrete primitives, their sessions, and packets between them, for the tests.
use bitchat_meshtastic.Prelude.{
  ℕ, ◌==◌, true, false, some, List, [], ◌∷◌, ◌++◌, get_or, replicate, codes,
}
use bitchat_meshtastic.Noise.Symmetric.{CipherState}
use bitchat_meshtastic.Noise.Handshake.{transport}
use bitchat_meshtastic.Noise.Toy.{toy}
use bitchat_meshtastic.Ble.Queue.{RxEntry, empty_queue}
use bitchat_meshtastic.Ble.Relay.{empty_relay}
use bitchat_meshtastic.Ble.Fragments.{empty_slots}
use bitchat_meshtastic.Ble.Packet.{Signer}
use bitchat_meshtastic.Ble.Identity.{BitchatKeypair}
use bitchat_meshtastic.Ble.Peers.{PeerSession, zero_peer, zero_handshake}
use bitchat_meshtastic.Ble.Send.{Radio, Own}
use bitchat_meshtastic.Ble.Incoming.{BitchatBle}

-- A signature is the TTL of the packet, 64 times.
abbrev pub by_ttl : Signer
by_ttl = record {
  sign = λ body key. replicate 64 (get_or body 2 0);
  verify = λ sig body key. get_or sig 0 0 == get_or body 2 0;
  create_keypair = λ seed. (seed, seed ++ seed);
}

-- A signature that ends in the byte 1.
abbrev pub ends_in_one : Signer
ends_in_one = record by_ttl { sign = λ body key. replicate 63 5 ++ (1 ∷ []) }

abbrev pub radio : Radio
radio = record {
  crypto = toy;
  signer = by_ttl;
  now = 1000;
  epoch_ms = 1700000000000;
  clock = 1700000000;
  server_mtu = 515;
  client_mtu = λ handle. 515;
  frag_id = λ handle bytes. 77;
  message_id = λ handle. replicate 16 6;
  ephemeral = λ handle. some (replicate 32 2, replicate 32 9);
}

abbrev pub identity : ℕ → BitchatKeypair
identity n = record {
  noise_private = replicate 32 n;
  noise_public = replicate 32 9;
  sign_private = replicate 64 n;
  sign_public = replicate 32 n;
  fingerprint = replicate 32 n;
}

abbrev pub ours : Own
ours = record { keypair = identity 1; server = true }

abbrev pub theirs : Own
theirs = record { keypair = identity 3; server = true }

-- A peer on the connection 1 that has announced its key.
abbrev pub peer : PeerSession
peer = record zero_peer {
  active = true;
  conn_handle = 1;
  connect_time_ms = 500;
  we_are_central = true;
  nickname = codes "Ann";
  sign_pubkey = some (replicate 32 4);
}

abbrev pub cipher : CipherState
cipher = record { k = replicate 32 7; n = 4 }

abbrev pub in_session : PeerSession
in_session = record peer {
  hs = record zero_handshake { phase = transport; send_cs = cipher; recv_cs = cipher };
}

abbrev pub bridge : PeerSession → BitchatBle
bridge p = record {
  active = true;
  own = ours;
  peers = p ∷ zero_peer ∷ zero_peer ∷ zero_peer ∷ [];
  queue = empty_queue;
  relay = empty_relay;
  slots = empty_slots;
  scanning = false;
  last_scan_ms = 0;
  last_announce_ms = 0;
}

abbrev pub entry_of : List ℕ → RxEntry
entry_of bytes = record { bytes = bytes; conn_handle = 1 }
