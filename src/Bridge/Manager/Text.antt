-- ===== src/Bridge/Manager/Text.antt =====
-- The texts that src/bridge/bridge_manager.cpp writes.
use bitchat_meshtastic.Prelude.{
  ℕ, ◌==◌, if◌then◌else◌, ◌&&◌, Option, none, some, List, [], ◌∷◌, ◌++◌, take, codes, is_empty,
}
use bitchat_meshtastic.Config.{bridge_name, msg_prefix_mesh, msg_prefix_ble}
use bitchat_meshtastic.Bridge.Message.{
  MessageOrigin, meshtastic, bitchat, bridge_local, BridgeMessage, has_bitchat_fingerprint,
}
use bitchat_meshtastic.Bridge.Names.{IdentityMapper, get_mesh_name, get_ble_name}

abbrev pub prefix_of : MessageOrigin → List ℕ
prefix_of meshtastic = msg_prefix_mesh
prefix_of _ = msg_prefix_ble

abbrev pub mapped_name : IdentityMapper → BridgeMessage → MessageOrigin → Option (List ℕ)
mapped_name m msg meshtastic =
    if msg.sender.meshtastic_node_id == 0
    then none
    else get_mesh_name msg.sender.meshtastic_node_id m
mapped_name m msg bitchat =
    if has_bitchat_fingerprint msg.sender.bitchat_fingerprint
    then get_ble_name msg.sender.bitchat_fingerprint m
    else none
mapped_name m msg bridge_local = none

-- `out_len` is 512.
unfoldable pub format_bridged_text : IdentityMapper → BridgeMessage → List ℕ
format_bridged_text m msg =
    let shown =
      if is_empty msg.sender.display_name then codes "unknown" else msg.sender.display_name in
    let sender : List ℕ = (elim (mapped_name m msg msg.origin) [
      | some name ↦ name
      | none ↦ shown
    ]) in
    take 511 (prefix_of msg.origin ++ (sender ++ (codes ": " ++ msg.text)))

abbrev cons_fst : ℕ → Option (List ℕ × List ℕ) → Option (List ℕ × List ℕ)
cons_fst b none = none
cons_fst b (some (front, back)) = some (b ∷ front, back)

-- `strstr(text, ": ")`: what stands before it, and behind it.
unfoldable pub at_colon : List ℕ → Option (List ℕ × List ℕ)
at_colon [] = none
at_colon (a ∷ []) = none
at_colon (a ∷ b ∷ s) =
    let rest = at_colon (b ∷ s) in
    if (a == b':') && (b == b' ') then some ([], s) else cons_fst a rest

-- The prefix of the chunks, in a buffer of 80 bytes, and the body.
unfoldable pub split_sender : MessageOrigin → List ℕ → List ℕ × List ℕ
unfolding at_colon
split_sender origin text = elim (at_colon text) [
  | some (front, body) ↦ (take 79 front, body)
  | none ↦ (take 79 (prefix_of origin), text)
]

abbrev pub shown_name : List ℕ → List ℕ
shown_name name = if is_empty name then codes "a Meshtastic user" else name

-- Buffers of 128 bytes.
unfoldable pub farewell_ble : List ℕ → List ℕ
farewell_ble name = take 127 (
    shown_name name
    ++ (codes " has gone idle and left the chat. New messages from them will appear under "
        ++ (bridge_name ++ codes ".")))

unfoldable pub farewell_mesh : List ℕ → List ℕ
farewell_mesh name = take 127 (
    codes "[B] Bridge released identity for "
    ++ (shown_name name
        ++ (codes " (memory pressure). Messages will still be bridged under "
            ++ (bridge_name ++ codes "."))))
