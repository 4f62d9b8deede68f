-- ===== src/Tcp/Sent.antt =====
-- What `send_text` writes to the socket.
use bitchat_meshtastic.Prelude.{ℕ, ◌≡◌, arith, Bool, true, List, [], ◌∷◌, ◌++◌, take, length-take}
use bitchat_meshtastic.Frame.{idle, feed}
use bitchat_meshtastic.Frame.Stream.{feed-send_all}
use bitchat_meshtastic.Proto.Encode.{encode_data, encode_mesh_packet, encode_to_radio_packet}
use bitchat_meshtastic.Proto.Encode.Sizes.{buffers_suffice, length-encode_to_radio_packet}
use bitchat_meshtastic.Tcp.{Tcp, Out, write, message, set_clock, stop, generate_packet_id}
use bitchat_meshtastic.Tcp.Session.{is_connected, send_text}

-- The bytes written, one after the other
abbrev pub written : List Out → List ℕ
written [] = []
written (write bs ∷ out) = bs ++ written out
written (message m ∷ out) = written out
written (set_clock s ∷ out) = written out
written (stop ∷ out) = written out

-- A connected client sends a text as one frame, which a receiver of the framing reads back as the
-- ToRadio message with the text, cut to 233 bytes.
pub send_text-frame :
    (client : Bool) (rand : ℕ) (text : List ℕ) (dest channel : ℕ) (st : Tcp)
    → is_connected client st ≡ true
    → (feed idle (written (send_text client rand text dest channel st).1)).1
      ≡ encode_to_radio_packet (
          encode_mesh_packet 0 dest
            (send_text client rand text dest channel st).0.packet_id_counter
            channel
            3
            (encode_data 1 (take 233 text)))
        ∷ []
unfolding send_text
send_text-frame client rand text dest channel st h =
    let packet : List ℕ = encode_to_radio_packet (
      encode_mesh_packet 0 dest (generate_packet_id rand st.packet_id_counter) channel 3
        (encode_data 1 (take 233 text))) in
    let (d, p, t) =
      buffers_suffice 1 0 dest (generate_packet_id rand st.packet_id_counter) channel 3
        (take 233 text) (omega (arith, length-take 233 text)) in
    rw h (
      feed-send_all (packet ∷ []) (
        (
          omega (
            arith,
            length-encode_to_radio_packet (
                encode_mesh_packet 0 dest (generate_packet_id rand st.packet_id_counter) channel 3
                  (encode_data 1 (take 233 text))),
          ),
          t,
        ),
        tt,
      ))
