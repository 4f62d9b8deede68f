-- ===== src/Config.antt =====
-- The constants of src/config.h.
use bitchat_meshtastic.Prelude.{ℕ, List, codes, ◌*◌}

-- Bridge behaviour
abbrev pub bridge_name : List ℕ
bridge_name = codes "BitBridge"

abbrev pub meshtastic_channel : ℕ
meshtastic_channel = 0

abbrev pub msg_prefix_mesh : List ℕ
msg_prefix_mesh = codes "[M] "

abbrev pub msg_prefix_ble : List ℕ
msg_prefix_ble = codes "[B] "

-- Meshtastic protocol
abbrev pub mesh_start1 : ℕ
mesh_start1 = 0x94

abbrev pub mesh_start2 : ℕ
mesh_start2 = 0xC3

abbrev pub mesh_header_len : ℕ
mesh_header_len = 4

abbrev pub mesh_max_payload : ℕ
mesh_max_payload = 512

abbrev pub mesh_broadcast : ℕ
mesh_broadcast = 0xFFFFFFFF

abbrev pub mesh_heartbeat_ms : ℕ
mesh_heartbeat_ms = 300 * 1000

abbrev pub mesh_data_max : ℕ
mesh_data_max = 233

abbrev pub portnum_text_message_app : ℕ
portnum_text_message_app = 1

abbrev pub portnum_position_app : ℕ
portnum_position_app = 3

abbrev pub portnum_nodeinfo_app : ℕ
portnum_nodeinfo_app = 4

abbrev pub portnum_telemetry_app : ℕ
portnum_telemetry_app = 67

abbrev pub bridge_nodeinfo_interval_ms : ℕ
bridge_nodeinfo_interval_ms = 60 * 60 * 1000

abbrev pub bridge_short_name : List ℕ
bridge_short_name = codes "BBR"

abbrev pub bridge_hw_model : ℕ
bridge_hw_model = 255

abbrev pub bridge_role : ℕ
bridge_role = 0

-- Chunking
abbrev pub bridge_chunk_max_chunks : ℕ
bridge_chunk_max_chunks = 4

abbrev pub bridge_chunk_delay_ms : ℕ
bridge_chunk_delay_ms = 1500

-- Bitchat protocol
abbrev pub bitchat_max_hops : ℕ
bitchat_max_hops = 7

abbrev pub bitchat_header_v1_len : ℕ
bitchat_header_v1_len = 14

abbrev pub bitchat_header_v2_len : ℕ
bitchat_header_v2_len = 16

abbrev pub bitchat_sender_id_len : ℕ
bitchat_sender_id_len = 8

abbrev pub bitchat_header_len : ℕ
bitchat_header_len = 14

abbrev pub bitchat_pkt_announce : ℕ
bitchat_pkt_announce = 0x01

abbrev pub bitchat_pkt_message : ℕ
bitchat_pkt_message = 0x02

abbrev pub bitchat_pkt_leave : ℕ
bitchat_pkt_leave = 0x03

abbrev pub bitchat_pkt_noise_handshake : ℕ
bitchat_pkt_noise_handshake = 0x10

abbrev pub bitchat_pkt_noise_encrypted : ℕ
bitchat_pkt_noise_encrypted = 0x11

abbrev pub bitchat_pkt_fragment : ℕ
bitchat_pkt_fragment = 0x20

abbrev pub bitchat_pkt_request_sync : ℕ
bitchat_pkt_request_sync = 0x21

abbrev pub bitchat_flag_has_recipient : ℕ
bitchat_flag_has_recipient = 0x01

abbrev pub bitchat_flag_has_signature : ℕ
bitchat_flag_has_signature = 0x02

abbrev pub bitchat_tlv_nickname : ℕ
bitchat_tlv_nickname = 0x01

abbrev pub bitchat_tlv_noise_pubkey : ℕ
bitchat_tlv_noise_pubkey = 0x02

abbrev pub bitchat_tlv_signing_pubkey : ℕ
bitchat_tlv_signing_pubkey = 0x03

abbrev pub bitchat_tlv_text : ℕ
bitchat_tlv_text = 0x05

abbrev pub bitchat_tlv_message_id : ℕ
bitchat_tlv_message_id = 0x00

abbrev pub bitchat_tlv_content : ℕ
bitchat_tlv_content = 0x01

abbrev pub noise_payload_private_msg : ℕ
noise_payload_private_msg = 0x01

abbrev pub noise_payload_read_receipt : ℕ
noise_payload_read_receipt = 0x02

abbrev pub noise_payload_delivered : ℕ
noise_payload_delivered = 0x03

abbrev pub bitchat_max_connections : ℕ
bitchat_max_connections = 4

abbrev pub bitchat_handshake_timeout_ms : ℕ
bitchat_handshake_timeout_ms = 15 * 1000

abbrev pub bitchat_announce_interval_ms : ℕ
bitchat_announce_interval_ms = 60 * 1000

abbrev pub bitchat_ble_mtu : ℕ
bitchat_ble_mtu = 512

abbrev pub bitchat_max_text_len : ℕ
bitchat_max_text_len = 240

abbrev pub bitchat_msg_cache_ttl_ms : ℕ
bitchat_msg_cache_ttl_ms = 30 * 1000

abbrev pub bitchat_frag_header_len : ℕ
bitchat_frag_header_len = 6

abbrev pub bitchat_max_fragments : ℕ
bitchat_max_fragments = 8

abbrev pub bitchat_frag_reassembly : ℕ
bitchat_frag_reassembly = 4

abbrev pub bitchat_frag_timeout_ms : ℕ
bitchat_frag_timeout_ms = 10 * 1000

-- Virtual identities
abbrev pub virt_id_max_slots : ℕ
virt_id_max_slots = 32

abbrev pub virt_id_heap_reserve_bytes : ℕ
virt_id_heap_reserve_bytes = 40 * 1024

abbrev pub virt_id_heap_critical_bytes : ℕ
virt_id_heap_critical_bytes = 25 * 1024

abbrev pub virt_id_timeout_ms : ℕ
virt_id_timeout_ms = 10 * 60 * 1000

abbrev pub virt_id_memory_check_ms : ℕ
virt_id_memory_check_ms = 10 * 1000

abbrev pub virtual_announce_stagger_ms : ℕ
virtual_announce_stagger_ms = 200

abbrev pub max_identity_entries : ℕ
max_identity_entries = 16

abbrev pub identity_save_debounce_ms : ℕ
identity_save_debounce_ms = 30 * 1000

abbrev pub dedup_cache_size : ℕ
dedup_cache_size = 64

abbrev pub dedup_ttl_ms : ℕ
dedup_ttl_ms = 60 * 1000

-- What is forwarded of a node's positions and telemetry
abbrev pub bridge_forward_position : ℕ
bridge_forward_position = 0

abbrev pub bridge_forward_telemetry : ℕ
bridge_forward_telemetry = 0

abbrev pub position_forward_min_ms : ℕ
position_forward_min_ms = 5 * 60 * 1000

abbrev pub telemetry_forward_min_ms : ℕ
telemetry_forward_min_ms = 5 * 60 * 1000
