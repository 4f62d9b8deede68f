-- ===== src/Proto/Parse.antt =====
-- The parsers of src/meshtastic/mesh_proto.h: `parse_from_radio`, `is_config_complete` and
-- `parse_node_info`.
pub mod Message
pub mod Names
pub mod Endless
use bitchat_meshtastic.Prelude.{ℕ, zero, suc, ◌%◌, ◌==◌, if◌then◌else◌, Option, none, some}
use bitchat_meshtastic.Prelude.{Bool, true, false, not, ◌||◌, ◌&&◌}
use bitchat_meshtastic.Prelude.{List, [], ◌∷◌, length, take, drop, c_str, is_empty}
use bitchat_meshtastic.Config.{
  portnum_text_message_app, portnum_position_app, portnum_telemetry_app,
}
use bitchat_meshtastic.Proto.Field.{
  Slice, slice, negative, Value, varint, bytes, fixed32, fixed64, ProtoField, decode_field,
}
use bitchat_meshtastic.Proto.Loop.{Outcome, done, hang, fault, ◌>>=◌, each_field_of}
use bitchat_meshtastic.Proto.Report.{FloatPrinter, format_position, format_telemetry}

pub data ParsedKind : Type 0 where
  no_kind text_kind position_kind telemetry_kind : ParsedKind

pub record ParsedTextMessage : Type 0 where
  pub valid : Bool
  pub kind : ParsedKind
  pub from_node : ℕ
  pub to_node : ℕ
  pub packet_id : ℕ
  pub channel : ℕ
  pub rx_time : ℕ
  pub text : List ℕ

abbrev pub no_message : ParsedTextMessage
no_message = record {
  valid = false;
  kind = no_kind;
  from_node = 0;
  to_node = 0;
  packet_id = 0;
  channel = 0;
  rx_time = 0;
  text = [];
}

-- The last length-delimited field of a number: the `packet` and the `node_info` of FromRadio.
bytes_field : ℕ → ℕ → Value → Option Slice → Option Slice
bytes_field wanted num (bytes s) found = if num == wanted then some s else found
bytes_field wanted num (varint v) found = found
bytes_field wanted num (fixed32 v) found = found
bytes_field wanted num fixed64 found = found

unfoldable pub find_bytes : ℕ → Option Slice → ProtoField → Outcome (Option Slice)
unfolding bytes_field
find_bytes wanted found f = done (bytes_field wanted f.field_num f.val found)

-- What the second loop fills in: members of `result`, and the Data submessage.
pub record Packet : Type 0 where
  pub result : ParsedTextMessage
  pub decoded : Option Slice

packet_field : ℕ → Value → Packet → Packet
packet_field num (fixed32 v) p =
    if num == 1
    then record p { result = record (p.result) { from_node = v } }
    else if num == 2
    then record p { result = record (p.result) { to_node = v } }
    else if num == 6
    then record p { result = record (p.result) { packet_id = v } }
    else if num == 9
    then record p { result = record (p.result) { rx_time = v } }
    else p
packet_field num (varint v) p =
    if num == 3 then record p { result = record (p.result) { channel = v % 256 } } else p
packet_field num (bytes s) p = if num == 4 then record p { decoded = some s } else p
packet_field num fixed64 p = p

packet_step : Packet → ProtoField → Outcome Packet
unfolding packet_field
packet_step p f = done (packet_field f.field_num f.val p)

pub record Data : Type 0 where
  pub portnum : ℕ
  pub payload : Option Slice

data_field : ℕ → Value → Data → Data
data_field num (varint v) d = if num == 1 then record d { portnum = v } else d
data_field num (bytes s) d = if num == 2 then record d { payload = some s } else d
data_field num (fixed32 v) d = d
data_field num fixed64 d = d

data_step : Data → ProtoField → Outcome Data
unfolding data_field
data_step d f = done (data_field f.field_num f.val d)

-- `memcpy` of at most `size - 1` bytes into a buffer of `size` bytes, and the NUL behind them.
abbrev copy_text : ℕ → Slice → Outcome (List ℕ)
copy_text most (slice bs) = done (c_str (take most bs))
copy_text most negative = fault

abbrev with_text : ParsedTextMessage → ParsedKind → List ℕ → ParsedTextMessage
with_text r k t = record r { valid = true; kind = k; text = t }

-- `snprintf` keeps 255 bytes.
abbrev with_report : ParsedTextMessage → ParsedKind → Option (List ℕ) → ParsedTextMessage
with_report r k none = r
with_report r k (some t) = with_text r k (c_str (take 255 t))

-- What `parse_from_radio` does with a payload that is not empty.
read_payload : FloatPrinter → ℕ → Slice → ParsedTextMessage → Outcome ParsedTextMessage
read_payload fmt portnum payload r =
    if portnum == portnum_text_message_app
    then (do t ← copy_text 255 payload; done (with_text r text_kind t))
    else if portnum == portnum_position_app
    then (do t ← format_position fmt payload; done (with_report r position_kind t))
    else if portnum == portnum_telemetry_app
    then (do t ← format_telemetry fmt payload; done (with_report r telemetry_kind t))
    else done r

finish_data : FloatPrinter → ℕ → Option Slice → ParsedTextMessage → Outcome ParsedTextMessage
unfolding read_payload
finish_data fmt portnum none r = done r
finish_data fmt portnum (some (slice [])) r = done r
finish_data fmt portnum (some s) r = read_payload fmt portnum s r

parse_data : FloatPrinter → Option Slice → ParsedTextMessage → Outcome ParsedTextMessage
unfolding data_step finish_data
parse_data fmt none r = done r
parse_data fmt (some decoded) r = do
  d ← each_field_of data_step decoded (record { portnum = 0; payload = none })
  finish_data fmt d.portnum d.payload r

parse_packet : FloatPrinter → Option Slice → Outcome ParsedTextMessage
unfolding packet_step parse_data
parse_packet fmt none = done no_message
parse_packet fmt (some packet) = do
  p ← each_field_of packet_step packet (record { result = no_message; decoded = none })
  parse_data fmt p.decoded p.result

unfoldable pub parse_from_radio : FloatPrinter → List ℕ → Outcome ParsedTextMessage
unfolding find_bytes parse_packet
parse_from_radio fmt buf = do
  packet ← each_field_of (find_bytes 2) (slice buf) none
  parse_packet fmt packet

-- Whether a field is the `config_complete_id` (field 7, varint) with the nonce.
completes : ℕ → ℕ → Value → Bool
completes nonce num (varint v) = num == 7 && v == nonce
completes nonce num (bytes s) = false
completes nonce num (fixed32 v) = false
completes nonce num fixed64 = false

config_loop : ℕ → ℕ → List ℕ → Outcome Bool
unfolding completes
config_loop nonce fuel [] = done false
config_loop nonce zero (b ∷ bs) = hang
config_loop nonce (suc fuel) (b ∷ bs) = elim (decode_field (b ∷ bs)) [
  | none ↦ done false
  | some (consumed, f) ↦ elim (completes nonce f.field_num f.val) [
    | true ↦ done true
    | false ↦ config_loop nonce fuel (drop consumed (b ∷ bs))
  ]
]

unfoldable pub is_config_complete : List ℕ → ℕ → Outcome Bool
unfolding config_loop
is_config_complete buf expected_nonce = config_loop expected_nonce (length buf) buf

pub record ParsedNodeInfo : Type 0 where
  pub valid : Bool
  pub node_num : ℕ
  pub long_name : List ℕ
  pub short_name : List ℕ

abbrev pub no_node_info : ParsedNodeInfo
no_node_info = record { valid = false; node_num = 0; long_name = []; short_name = [] }

pub record NodeInfo : Type 0 where
  pub num : ℕ
  pub user : Option Slice

node_info_field : ℕ → Value → NodeInfo → NodeInfo
node_info_field num (fixed32 v) n = if num == 1 then record n { num = v } else n
node_info_field num (bytes s) n = if num == 2 then record n { user = some s } else n
node_info_field num (varint v) n = n
node_info_field num fixed64 n = n

node_info_step : NodeInfo → ProtoField → Outcome NodeInfo
unfolding node_info_field
node_info_step n f = done (node_info_field f.field_num f.val n)

user_field : ℕ → Value → ParsedNodeInfo → Outcome ParsedNodeInfo
user_field num (bytes s) r =
    if num == 1
    then (do name ← copy_text 39 s; done (record r { long_name = name }))
    else if num == 2
    then (do name ← copy_text 4 s; done (record r { short_name = name }))
    else done r
user_field num (varint v) r = done r
user_field num (fixed32 v) r = done r
user_field num fixed64 r = done r

user_step : ParsedNodeInfo → ProtoField → Outcome ParsedNodeInfo
unfolding user_field
user_step r f = user_field f.field_num f.val r

parse_user : ℕ → Option Slice → Outcome ParsedNodeInfo
unfolding user_step
parse_user num none = done (record no_node_info { node_num = num })
parse_user num (some user) = if num == 0 then done (record no_node_info { node_num = num }) else (do
  r ← each_field_of user_step user (record no_node_info { node_num = num })
  done (record r { valid = not (is_empty r.long_name) || not (is_empty r.short_name) }))

parse_node : Option Slice → Outcome ParsedNodeInfo
unfolding node_info_step parse_user
parse_node none = done no_node_info
parse_node (some node_info) = do
  n ← each_field_of node_info_step node_info (record { num = 0; user = none })
  parse_user n.num n.user

unfoldable pub parse_node_info : List ℕ → Outcome ParsedNodeInfo
unfolding find_bytes parse_node
parse_node_info buf = do
  node_info ← each_field_of (find_bytes 4) (slice buf) none
  parse_node node_info
