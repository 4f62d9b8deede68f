-- ===== src/Bridge/Message.antt =====
-- src/bridge/message.h: the message that both transports share, and its hash.
use bitchat_meshtastic.Prelude.{
  ℕ, ◌*◌, ◌%◌, ◌^◌, ◌==◌, if◌then◌else◌, Bool, true, false, List, [], ◌∷◌, ◌++◌, take, replicate,
  le32,
}
use Prim.Native.Nat.{bit_xor}

pub data MessageOrigin : Type 0 where
  meshtastic bitchat bridge_local : MessageOrigin

-- `bitchat_fingerprint` has 32 bytes; `display_name` and `text` are C strings.
pub record SenderIdentity : Type 0 where
  pub meshtastic_node_id : ℕ
  pub bitchat_fingerprint : List ℕ
  pub display_name : List ℕ

pub record BridgeMessage : Type 0 where
  pub origin : MessageOrigin
  pub sender : SenderIdentity
  pub text : List ℕ
  pub timestamp_ms : ℕ

abbrev pub no_fingerprint : List ℕ
no_fingerprint = replicate 32 0

abbrev pub no_sender : SenderIdentity
no_sender = record {
  meshtastic_node_id = 0;
  bitchat_fingerprint = no_fingerprint;
  display_name = [];
}

abbrev pub empty_message : BridgeMessage
empty_message = record { origin = bridge_local; sender = no_sender; text = []; timestamp_ms = 0 }

abbrev pub has_bitchat_fingerprint : List ℕ → Bool
has_bitchat_fingerprint [] = false
has_bitchat_fingerprint (b ∷ fp) = if b == 0 then has_bitchat_fingerprint fp else true

-- FNV-1a
abbrev mix : ℕ → ℕ → ℕ
mix h byte = bit_xor h byte * 16777619 % 2 ^ 32

unfoldable pub mix_all : ℕ → List ℕ → ℕ
mix_all h [] = h
mix_all h (b ∷ bs) = mix_all (mix h b) bs

unfoldable pub hash : BridgeMessage → ℕ
unfolding mix_all
hash msg =
    mix_all 2166136261
      (msg.text ++ (le32 msg.sender.meshtastic_node_id ++ take 8 msg.sender.bitchat_fingerprint))
