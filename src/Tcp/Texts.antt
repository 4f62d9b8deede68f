-- ===== src/Tcp/Texts.antt =====
-- What becomes of a text packet that the radio hands on.
use bitchat_meshtastic.Prelude.{
  ◌==◌, ◌&&◌, ◌||◌, ℕ, ◌^◌, ◌<◌, ◌≡◌, refl, sym, ◌∙◌, arith, Bool, true, false, not, if◌then◌else◌,
  Bool-cases, inl, inr, none, List, [], ◌∷◌, append-nil, length, take, take_all, length-take, c_str,
  c_str-IsText, c_str_of-IsText, length-c_str-le, IsU32,
}
use bitchat_meshtastic.Proto.Field.{slice, bytes}
use bitchat_meshtastic.Proto.Encode.{encode_data, encode_mesh_packet, encode_bytes_field}
use bitchat_meshtastic.Proto.Encode.Sizes.{length-encode_data, length-encode_mesh_packet}
use bitchat_meshtastic.Proto.Loop.{done}
use bitchat_meshtastic.Proto.Loop.Fold.{each_field_of-write_fields}
use bitchat_meshtastic.Proto.Report.{FloatPrinter}
use bitchat_meshtastic.Proto.Parse.{
  find_bytes, no_node_info, text_kind, ParsedTextMessage, parse_from_radio, parse_node_info,
}
use bitchat_meshtastic.Proto.Parse.Message.{parse_from_radio-encode_mesh_packet}
use bitchat_meshtastic.Bridge.Message.{BridgeMessage, meshtastic, no_fingerprint}
use bitchat_meshtastic.Tcp.Nodes.{NodeEntry}
use bitchat_meshtastic.Tcp.{Tcp, message}
use bitchat_meshtastic.Tcp.Receive.{
  sender_name, is_own, bridge_message, handle_packet, handle_from_radio,
}

-- The FromRadio message with a text packet of a node
abbrev pub text_frame : ℕ → ℕ → ℕ → ℕ → ℕ → List ℕ → List ℕ
text_frame from to id channel hop_limit text =
    encode_bytes_field 2 (encode_mesh_packet from to id channel hop_limit (encode_data 1 text))

-- What is parsed of it
abbrev pub parsed_text : ℕ → ℕ → ℕ → ℕ → List ℕ → ParsedTextMessage
parsed_text from to id channel text = record {
  valid = true;
  kind = text_kind;
  from_node = from;
  to_node = to;
  packet_id = id;
  channel = channel;
  rx_time = 0;
  text = c_str (take 255 text);
}

no_node_info_in :
    (packet : List ℕ)
    → length packet < 2 ^ 30
    → parse_node_info (encode_bytes_field 2 packet) ≡ done no_node_info
unfolding parse_node_info
no_node_info_in packet h =
    rw
      (each_field_of-write_fields (find_bytes 4)
        (record { field_num = 2; val = bytes (slice packet) } ∷ []) (encode_bytes_field 2 packet)
        none (sym (append-nil _)) (omega arith))
      (unfold find_bytes in refl)

handle_packet-text :
    (fmt : FloatPrinter) (now clock : ℕ) (from to id channel : ℕ) (text packet : List ℕ) (st : Tcp)
    → length packet < 2 ^ 30
    → parse_from_radio fmt (encode_bytes_field 2 packet)
      ≡ done (parsed_text from to id channel text)
    → handle_packet fmt now clock (encode_bytes_field 2 packet) st ≡ (
        let msg = parsed_text from to id channel text in
        done (st, if is_own msg st then [] else message (bridge_message now msg st.nodes) ∷ []))
unfolding handle_packet
handle_packet-text fmt now clock from to id channel text packet st h e =
    elim (Bool-cases (is_own (parsed_text from to id channel text) st)) [
      | inl p ↦ rw (e, p) refl
      | inr p ↦ rw (e, p) (rw (no_node_info_in packet h) refl)
    ]

negated_if : {A : Type 0} (c : Bool) (x y : A) → c ≡ true → (if not c then x else y) ≡ y
negated_if true x y h = refl
negated_if false x y h = cc

-- The message that is passed on
abbrev pub forwarded_text : ℕ → ℕ → List ℕ → List NodeEntry → BridgeMessage
forwarded_text now from text nodes = record {
  origin = meshtastic;
  sender = record {
    meshtastic_node_id = from;
    bitchat_fingerprint = no_fingerprint;
    display_name = sender_name from nodes;
  };
  text = c_str (take 255 text);
  timestamp_ms = now;
}

bridge_message-text :
    (now from to id channel : ℕ) (text : List ℕ) (nodes : List NodeEntry)
    → bridge_message now (parsed_text from to id channel text) nodes
      ≡ forwarded_text now from text nodes
unfolding bridge_message
bridge_message-text now from to id channel text nodes =
    let shown : List ℕ = c_str (take 255 text) in
    rw
      (
        c_str_of-IsText shown (c_str-IsText (take 255 text)),
        take_all 511 shown (omega (arith, length-c_str-le (take 255 text), length-take 255 text)),
      )
      refl

-- A number other than 0 that is the node's own, or the one that the bridge announces
abbrev pub is_known_as_own : ℕ → Tcp → Bool
is_known_as_own from st =
    not (from == 0) && ((from == st.my_node_id) || (from == st.bridge_node_num))

is_own-text :
    (from to id channel : ℕ) (text : List ℕ) (st : Tcp)
    → is_own (parsed_text from to id channel text) st ≡ is_known_as_own from st
is_own-text from to id channel text st = own st.my_node_id st.bridge_node_num
  where
    own :
        (mine bridge : ℕ)
        → ((from == mine) && not (mine == 0) || (from == bridge) && not (bridge == 0))
          ≡ not (from == 0) && ((from == mine) || (from == bridge))
    own mine bridge = ground arith

-- A text packet with a number other than 0 that is the node's own, or the one that the bridge
-- announces, is not passed on, and changes nothing; any other is passed on as one message of its
-- sender, with the name that is known for it and the text: its first 255 bytes, up to a NUL. The
-- configuration is complete, the numbers fit their types, and the text has 1 to 2^28 bytes.
pub handle_from_radio-text :
    (fmt : FloatPrinter) (now clock from to id channel hop_limit b : ℕ) (text : List ℕ) (st : Tcp)
    → st.config_complete ≡ true
    → IsU32 from
    → IsU32 to
    → IsU32 id
    → channel < 256
    → hop_limit < 256
    → length text < 2 ^ 28
    → handle_from_radio fmt now clock (text_frame from to id channel hop_limit (b ∷ text)) st
      ≡ done (
        st,
        if is_known_as_own from st
            then []
            else message (forwarded_text now from (b ∷ text) st.nodes) ∷ [],
      )
unfolding handle_from_radio
handle_from_radio-text fmt now clock from to id channel hop_limit b text st hc hf ht hi hch hh hl =
    let packet : List ℕ =
      encode_mesh_packet from to id channel hop_limit (encode_data 1 (b ∷ text)) in
    negated_if st.config_complete _ _ hc
    ∙ handle_packet-text fmt now clock from to id channel (b ∷ text) packet st
        (omega (
          arith,
          length-encode_mesh_packet from to id channel hop_limit (encode_data 1 (b ∷ text)),
          length-encode_data 1 (b ∷ text),
        ))
        (parse_from_radio-encode_mesh_packet fmt from to id channel hop_limit b text hf ht hi hch hh
          hl)
    ∙ rw
        (
          is_own-text from to id channel (b ∷ text) st,
          bridge_message-text now from to id channel (b ∷ text) st.nodes,
        )
        refl
