-- ===== src/Tcp/Receive.antt =====
-- `_handle_from_radio` of src/meshtastic/meshtastic_tcp.cpp.
use bitchat_meshtastic.Prelude.{
  ℕ, ◌+◌, ◌/◌, ◌%◌, ltb, ◌==◌, if◌then◌else◌, Bool, true, false, not, ◌&&◌, ◌||◌, Option, none,
  some, List, [], ◌∷◌, ◌++◌, take, sub32, c_str, codes, hex_word,
}
use bitchat_meshtastic.Config.{
  bridge_forward_position, bridge_forward_telemetry, position_forward_min_ms,
  telemetry_forward_min_ms,
}
use bitchat_meshtastic.Clock.{time_sync_from_epoch}
use bitchat_meshtastic.Frame.{process_byte}
use bitchat_meshtastic.Proto.Field.{slice, Value, varint, bytes, fixed32, fixed64, ProtoField}
use bitchat_meshtastic.Proto.Loop.{Outcome, done, ◌>>=◌, each_field_of}
use bitchat_meshtastic.Proto.Report.{FloatPrinter}
use bitchat_meshtastic.Proto.Parse.{
  ParsedKind, no_kind, text_kind, position_kind, telemetry_kind, ParsedTextMessage, ParsedNodeInfo,
  parse_from_radio, parse_node_info, is_config_complete,
}
use bitchat_meshtastic.Bridge.Message.{BridgeMessage, meshtastic, no_fingerprint}
use bitchat_meshtastic.Tcp.{Tcp, Out, message, set_clock}
use bitchat_meshtastic.Tcp.Nodes.{
  NodeEntry, on_node, store_node_info, get_node_name, find_or_create_node,
}

-- The node number in a MyNodeInfo
my_node_num_field : ℕ → Value → ℕ → ℕ
my_node_num_field num (fixed32 v) id = if num == 1 then v else id
my_node_num_field num (varint v) id = id
my_node_num_field num (bytes s) id = id
my_node_num_field num fixed64 id = id

my_node_num_step : ℕ → ProtoField → Outcome ℕ
unfolding my_node_num_field
my_node_num_step id f = done (my_node_num_field f.field_num f.val id)

my_info_field : ℕ → Value → ℕ → Outcome ℕ
unfolding my_node_num_step
my_info_field num (bytes s) id = if num == 3 then each_field_of my_node_num_step s id else done id
my_info_field num (varint v) id = done id
my_info_field num (fixed32 v) id = done id
my_info_field num fixed64 id = done id

my_info_step : ℕ → ProtoField → Outcome ℕ
unfolding my_info_field
my_info_step id f = my_info_field f.field_num f.val id

abbrev learn : ParsedNodeInfo → Tcp → Tcp
learn ni st = if ni.valid then record st { nodes = store_node_info ni st.nodes } else st

-- While the configuration is read.
unfoldable pub handle_config : List ℕ → Tcp → Outcome Tcp
unfolding my_info_step
handle_config buf st = do
  my_node_id ← each_field_of my_info_step (slice buf) st.my_node_id
  ni ← parse_node_info buf
  complete ← is_config_complete buf st.config_nonce
  let learned = learn ni (record st { my_node_id = my_node_id })
  done (record learned { config_complete = complete })

-- The gates of positions and telemetry: `none` where the message is dropped.
unfoldable pub forward_position : ℕ → ℕ → Tcp → Option Tcp
forward_position now from_node st =
    let (entry, nodes) = find_or_create_node from_node st.nodes in
    if bridge_forward_position == 0 then none else (elim entry [
      | none ↦ some st
      | some e ↦
          if not (e.last_pos_ms == 0) && ltb (sub32 now e.last_pos_ms) position_forward_min_ms
          then none
          else some
              (record st { nodes = on_node from_node (λ e. record e { last_pos_ms = now }) nodes })
    ])

unfoldable pub forward_telemetry : ℕ → ℕ → Tcp → Option Tcp
forward_telemetry now from_node st =
    let (entry, nodes) = find_or_create_node from_node st.nodes in
    if bridge_forward_telemetry == 0 then none else (elim entry [
      | none ↦ some st
      | some e ↦
          if not (e.last_tel_ms == 0) && ltb (sub32 now e.last_tel_ms) telemetry_forward_min_ms
          then none
          else some
              (record st { nodes = on_node from_node (λ e. record e { last_tel_ms = now }) nodes })
    ])

unfoldable pub gate : ParsedKind → ℕ → ℕ → Tcp → Option Tcp
unfolding forward_position forward_telemetry
gate position_kind now from_node st = forward_position now from_node st
gate telemetry_kind now from_node st = forward_telemetry now from_node st
gate no_kind now from_node st = some st
gate text_kind now from_node st = some st

-- `%02u` of a number below 100
abbrev two_digits : ℕ → List ℕ
two_digits n = (b'0' + n / 10) ∷ (b'0' + n % 10) ∷ []

-- " @ HH:MM:SS" is appended in a buffer of 256 bytes.
abbrev stamped : List ℕ → ℕ → List ℕ
stamped text s = take 255 (
    text
    ++ (codes " @ "
        ++ (two_digits (s / 3600 % 24)
            ++ (codes ":" ++ (two_digits (s / 60 % 60) ++ (codes ":" ++ two_digits (s % 60)))))))

abbrev is_report : ParsedKind → Bool
is_report position_kind = true
is_report telemetry_kind = true
is_report _ = false

abbrev pub sender_name : ℕ → List NodeEntry → List ℕ
sender_name from_node nodes = elim (get_node_name from_node nodes) [
  | some name ↦ take 31 name
  | none ↦ codes "!" ++ hex_word from_node
]

unfoldable pub bridge_message : ℕ → ParsedTextMessage → List NodeEntry → BridgeMessage
bridge_message now msg nodes = record {
  origin = meshtastic;
  sender = record {
    meshtastic_node_id = msg.from_node;
    bitchat_fingerprint = no_fingerprint;
    display_name = sender_name msg.from_node nodes;
  };
  text = take 511 (
      if is_report msg.kind && ltb 0 msg.rx_time
      then stamped (c_str msg.text) msg.rx_time
      else c_str msg.text);
  timestamp_ms = now;
}

-- Whether the message is the node's own, or comes from the number that the bridge announces.
abbrev pub is_own : ParsedTextMessage → Tcp → Bool
is_own msg st =
    ((msg.from_node == st.my_node_id) && not (st.my_node_id == 0))
    || ((msg.from_node == st.bridge_node_num) && not (st.bridge_node_num == 0))

-- What the message does, with the callback registered: `none` where the handler returns early, so no NodeInfo is read.
unfoldable pub deliver_message : ℕ → ParsedTextMessage → Tcp → Option (Tcp × List Out)
unfolding gate bridge_message
deliver_message now msg st =
    if not msg.valid
    then some (st, [])
    else if is_own msg st
    then none
    else (elim (gate msg.kind now msg.from_node st) [
      | none ↦ none
      | some st' ↦ some (st', message (bridge_message now msg st'.nodes) ∷ [])
    ])

abbrev clock_out : ℕ → ℕ → List Out
clock_out clock rx_time =
    if ltb 0 rx_time
    then (elim (time_sync_from_epoch clock rx_time) [ none ↦ [] | some s ↦ set_clock s ∷ [] ])
    else []

abbrev then_learn : List ℕ → List Out → Option (Tcp × List Out) → Tcp → Outcome (Tcp × List Out)
then_learn buf out none st = done (st, out)
then_learn buf out (some (st', out')) st = do
  ni ← parse_node_info buf
  done (learn ni st', out ++ out')

-- After the configuration.
unfoldable pub handle_packet : FloatPrinter → ℕ → ℕ → List ℕ → Tcp → Outcome (Tcp × List Out)
unfolding deliver_message time_sync_from_epoch
handle_packet fmt now clock buf st = do
  msg ← parse_from_radio fmt buf
  then_learn buf (clock_out clock msg.rx_time) (deliver_message now msg st) st

unfoldable pub handle_from_radio : FloatPrinter → ℕ → ℕ → List ℕ → Tcp → Outcome (Tcp × List Out)
unfolding handle_config handle_packet
handle_from_radio fmt now clock buf st =
    let packet = handle_packet fmt now clock buf st in
    if not st.config_complete then (do st' ← handle_config buf st; done (st', [])) else packet

abbrev on_payload : FloatPrinter → ℕ → ℕ → Option (List ℕ) → Tcp → Outcome (Tcp × List Out)
on_payload fmt now clock none st = done (st, [])
on_payload fmt now clock (some payload) st = handle_from_radio fmt now clock payload st

-- `_process_byte(_client.read())`
unfoldable pub receive : FloatPrinter → ℕ → ℕ → ℕ → Tcp → Outcome (Tcp × List Out)
unfolding handle_from_radio
receive fmt now clock b st =
    let (rx, payload) = process_byte st.rx b in
    on_payload fmt now clock payload (record st { rx = rx })

unfoldable pub receive_all : FloatPrinter → ℕ → ℕ → List ℕ → Tcp → Outcome (Tcp × List Out)
unfolding receive
receive_all fmt now clock [] st = done (st, [])
receive_all fmt now clock (b ∷ bs) st = do
  (st', out) ← receive fmt now clock b st
  (st'', out') ← receive_all fmt now clock bs st'
  done (st'', out ++ out')
