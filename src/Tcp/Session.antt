-- ===== src/Tcp/Session.antt =====
-- The session of src/meshtastic/meshtastic_tcp.cpp: connecting, sending, and `loop`.
use bitchat_meshtastic.Prelude.{
  ℕ, ltb, ◌==◌, if◌then◌else◌, Bool, true, false, not, ◌&&◌, ◌||◌, Option, none, some, List, [],
  ◌∷◌, ◌++◌, take, replicate, sub32, codes, hex_word,
}
use bitchat_meshtastic.Config.{
  mesh_start2, mesh_broadcast, mesh_heartbeat_ms, mesh_data_max, portnum_text_message_app,
  portnum_nodeinfo_app, bridge_hw_model, bridge_role, bridge_nodeinfo_interval_ms,
  meshtastic_channel,
}
use bitchat_meshtastic.Frame.{wait_start1, send_raw}
use bitchat_meshtastic.Proto.Encode.{
  encode_varint_field, encode_data, encode_mesh_packet, encode_user, encode_to_radio_packet,
  encode_to_radio_want_config, encode_to_radio_heartbeat,
}
use bitchat_meshtastic.Proto.Loop.{Outcome, done, ◌>>=◌}
use bitchat_meshtastic.Proto.Report.{FloatPrinter}
use bitchat_meshtastic.Tcp.{Tcp, Out, write, stop, generate_packet_id}
use bitchat_meshtastic.Tcp.Receive.{receive, receive_all}

-- `client` is `_client.connected()`.
abbrev pub is_connected : Bool → Tcp → Bool
is_connected client st = st.connected && (st.config_complete && client)

-- A Data message in a MeshPacket in a ToRadio message, with the next packet id.
abbrev pub packet_frame : ℕ → ℕ → ℕ → ℕ → ℕ → List ℕ → List ℕ
packet_frame from dest id channel portnum payload = send_raw (
    encode_to_radio_packet
      (encode_mesh_packet from dest id channel 3 (encode_data portnum payload)))

unfoldable pub send_text : Bool → ℕ → List ℕ → ℕ → ℕ → Tcp → Tcp × List Out
send_text client rand text dest channel st =
    let id = generate_packet_id rand st.packet_id_counter in
    if not (is_connected client st) then (st, []) else (
      record st { packet_id_counter = id },
      write (packet_frame 0 dest id channel portnum_text_message_app (take mesh_data_max text))
          ∷ [],
    )

-- A null pointer leaves the name as it was; the flag is sent on by the next `loop`.
abbrev or_kept : ℕ → Option (List ℕ) → List ℕ → List ℕ
or_kept n none old = old
or_kept n (some name) old = take n name

unfoldable pub send_node_info : ℕ → Option (List ℕ) → Option (List ℕ) → Tcp → Tcp × Bool
send_node_info bridge_node_num long_name short_name st =
    if bridge_node_num == 0 then (st, false) else (
      record st {
        bridge_node_num = bridge_node_num;
        bridge_long_name = or_kept 39 long_name st.bridge_long_name;
        bridge_short_name = or_kept 4 short_name st.bridge_short_name;
        bridge_nodeinfo_pending = true;
      },
      true,
    )

unfoldable pub emit_node_info : Bool → ℕ → Tcp → Tcp × List Out
emit_node_info client rand st =
    let id = generate_packet_id rand st.packet_id_counter in
    let user =
      encode_user (some (codes "!" ++ hex_word st.bridge_node_num)) (some st.bridge_long_name)
        (some st.bridge_short_name) bridge_hw_model bridge_role in
    if not (is_connected client st) || (st.bridge_node_num == 0) then (st, []) else (
      record st { packet_id_counter = id },
      write (
            packet_frame st.bridge_node_num mesh_broadcast id meshtastic_channel
              portnum_nodeinfo_app user)
          ∷ [],
    )

unfoldable pub disconnect : Bool → Tcp → Tcp × List Out
disconnect client st = (
  record st { connected = false; config_complete = false },
  if client then write (send_raw (encode_varint_field 4 1)) ∷ stop ∷ [] else [],
)

unfoldable pub heartbeat : ℕ → Tcp → Tcp × List Out
heartbeat now st =
    if st.config_complete && ltb mesh_heartbeat_ms (sub32 now st.last_heartbeat_ms)
    then (record st { last_heartbeat_ms = now }, write (send_raw encode_to_radio_heartbeat) ∷ [])
    else (st, [])

unfoldable pub renew_node_info : Bool → ℕ → ℕ → Tcp → Tcp × List Out
unfolding emit_node_info
renew_node_info client rand now st =
    let (sent, out) = emit_node_info client rand st in
    let stale = ltb bridge_nodeinfo_interval_ms (sub32 now st.last_nodeinfo_ms) in
    if st.config_complete
      && (not (st.bridge_node_num == 0) && (st.bridge_nodeinfo_pending || stale))
    then (record sent { bridge_nodeinfo_pending = false; last_nodeinfo_ms = now }, out)
    else (st, [])

-- `bytes` are those that `_client` has; `client` is whether it is still connected.
unfoldable pub loop : FloatPrinter → Bool → ℕ → ℕ → ℕ → List ℕ → Tcp → Outcome (Tcp × List Out)
unfolding heartbeat renew_node_info
loop fmt client rand now clock bytes st =
    let lost = record st {
      connected = false;
      config_complete = false;
      rx = record st.rx { state = wait_start1; buf = [] };
    } in
    let live : Outcome (Tcp × List Out) = (do
      (st₁, out₁) ← receive_all fmt now clock bytes st
      let (st₂, out₂) = heartbeat now st₁
      let (st₃, out₃) = renew_node_info client rand now st₂
      done (st₃, out₁ ++ (out₂ ++ out₃))) in
    if not st.connected then done (st, []) else if not client then done (lost, []) else live

-- The rounds of the wait in `_do_handshake`, one for each millisecond of the ten seconds; each has a
-- byte or none.
unfoldable pub await_config :
    FloatPrinter → ℕ → ℕ → List (Option ℕ) → Tcp → Outcome (Tcp × List Out)
await_config fmt now clock [] st = done (st, [])
await_config fmt now clock (none ∷ rounds) st = await_config fmt now clock rounds st
await_config fmt now clock (some b ∷ rounds) st =
    let rest : Outcome (Tcp × List Out) = (do
      (st', out) ← receive fmt now clock b st
      (st'', out') ← await_config fmt now clock rounds st'
      done (st'', out ++ out')) in
    if st.config_complete then done (st, []) else rest

-- 32 bytes to wake the parser of the device, then the request for its configuration.
abbrev pub hello : ℕ → List Out
hello nonce =
    write (replicate 32 mesh_start2) ∷ write (send_raw (encode_to_radio_want_config nonce)) ∷ []

abbrev finish_connect : ℕ → Tcp × List Out → Tcp × List Out × Bool
finish_connect now (st, out) =
    let (closed, bye) = disconnect true st in
    if st.config_complete
    then (record st { last_heartbeat_ms = now }, out, true)
    else (closed, out ++ bye, false)

-- `connects` is the result of `_client.connect`, `nonce` a random number; the client is taken to
-- stay connected while the configuration is awaited.
unfoldable pub connect :
    FloatPrinter → Bool → ℕ → ℕ → ℕ → List (Option ℕ) → Tcp → Outcome (Tcp × List Out × Bool)
unfolding await_config disconnect
connect fmt connects nonce now clock rounds st =
    let opened = record st {
      connected = true;
      config_complete = false;
      config_nonce = nonce;
      rx = record st.rx { state = wait_start1; buf = [] };
    } in
    let tried : Outcome (Tcp × List Out × Bool) = (do
      (st', out) ← await_config fmt now clock rounds opened
      done (finish_connect now (st', hello nonce ++ out))) in
    if not connects then done (st, [], false) else tried
