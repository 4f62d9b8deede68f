-- ===== src/Proto/Parse/Names.antt =====
-- `parse_node_info` on the User message that `encode_user` writes.
use bitchat_meshtastic.Prelude.{ℕ, ◌+◌, ◌^◌, ◌≤◌, ◌<◌, ◌≡◌, ◌≢◌, ◌∙◌, refl, arith}
use bitchat_meshtastic.Prelude.{none, some, List, [], ◌∷◌, ◌++◌, length, take, c_str, IsU32}
use bitchat_meshtastic.Prelude.{true, append-nil, length-append, sym, ==-of_ne}
use bitchat_meshtastic.Proto.Field.{slice, Value, varint, bytes, fixed32, ProtoField}
use bitchat_meshtastic.Proto.Encode.{encode_fixed32, encode_bytes_field, encode_user}
use bitchat_meshtastic.Proto.Varint.Bounds.{length-encode_varint}
use bitchat_meshtastic.Proto.Encode.Sizes.{
  length-encode_fixed32, length-encode_varint_field, length-encode_bytes_field,
}
use bitchat_meshtastic.Proto.Loop.{done}
use bitchat_meshtastic.Proto.Loop.Fold.{write_fields, each_field_of-write_fields}
use bitchat_meshtastic.Proto.Parse.{
  no_node_info, find_bytes, node_info_step, user_step, parse_user, parse_node, parse_node_info,
}

abbrev field : ℕ → Value → ProtoField
field num v = record { field_num = num; val = v }

-- The NodeInfo submessage of FromRadio, by the code's field encoders: num, then user.
abbrev pub node_info_message : ℕ → List ℕ → List ℕ
node_info_message num user =
    encode_bytes_field 4 (encode_fixed32 1 num ++ encode_bytes_field 2 user)

find_node_info :
    (num : ℕ) (user : List ℕ)
    → IsU32 num
    → num ≢ 0
    → length user < 2 ^ 20
    → length (encode_fixed32 1 num ++ encode_bytes_field 2 user) < 2 ^ 30
    → parse_node_info (node_info_message num user) ≡ parse_user num (some (slice user))
unfolding parse_node_info
find_node_info num user hn h0 hu hl =
    let inner : List ℕ = encode_fixed32 1 num ++ encode_bytes_field 2 user in
    let fs : List ProtoField = field 1 (fixed32 num) ∷ field 2 (bytes (slice user)) ∷ [] in
    rw
      (each_field_of-write_fields (find_bytes 4) (field 4 (bytes (slice inner)) ∷ [])
        (node_info_message num user) none (sym (append-nil _)) (omega (arith, hl)))
      (unfold find_bytes parse_node in
        rw
          (each_field_of-write_fields node_info_step fs inner (record { num = 0; user = none })
            (rw append-nil refl) (omega arith))
          (unfold node_info_step in refl))

module _ (a b c : ℕ) (id long_name short_name : List ℕ) (hw_model role : ℕ) where
  abbrev user_fields : List ProtoField
  user_fields =
      field 1 (bytes (slice (a ∷ id)))
      ∷ field 2 (bytes (slice (b ∷ long_name)))
      ∷ field 3 (bytes (slice (c ∷ short_name)))
      ∷ field 5 (varint hw_model)
      ∷ field 7 (varint role)
      ∷ []

  abbrev user_message : List ℕ
  user_message =
      encode_user (some (a ∷ id)) (some (b ∷ long_name)) (some (c ∷ short_name)) hw_model role

  user_message-write_fields : user_message ≡ write_fields user_fields
  unfolding encode_user
  user_message-write_fields = rw append-nil refl

  length-user_message : length user_message ≤ length id + length long_name + length short_name + 33
  unfolding encode_user
  length-user_message = simp length-append (
      omega (
        arith,
        length-encode_bytes_field 1 (a ∷ id) (omega arith),
        length-encode_varint (length (a ∷ id)),
        length-encode_bytes_field 2 (b ∷ long_name) (omega arith),
        length-encode_varint (length (b ∷ long_name)),
        length-encode_bytes_field 3 (c ∷ short_name) (omega arith),
        length-encode_varint (length (c ∷ short_name)),
        length-encode_varint_field 5 hw_model (omega arith),
        length-encode_varint hw_model,
        length-encode_varint_field 7 role (omega arith),
        length-encode_varint role,
      ))

  parse_user-user_message :
      (num : ℕ)
      → num ≢ 0
      → a ≢ 0
      → length id < 2 ^ 8
      → length long_name < 2 ^ 8
      → length short_name < 2 ^ 8
      → hw_model < 2 ^ 8
      → role < 2 ^ 8
      → parse_user num (some (slice user_message))
        ≡ done (record {
          valid = true;
          node_num = num;
          long_name = c_str (take 39 (a ∷ id));
          short_name = c_str (take 4 (b ∷ long_name));
        })
  unfolding parse_user
  parse_user-user_message num h0 ha hi hl hs hh hr =
      rw
        (
          ==-of_ne num 0 h0,
          each_field_of-write_fields user_step user_fields user_message
              (record no_node_info { node_num = num }) user_message-write_fields (omega arith),
        )
        (unfold user_step in rw (==-of_ne a 0 ha) refl)

-- The field numbers of the two sides differ. What `encode_user` writes as the id (field 1) is read
-- as the long name, and what it writes as the long name (field 2) is read, cut to four bytes, as
-- the short name; the short name (field 3) is not read.
pub parse_node_info-encode_user :
    (num a b c hw_model role : ℕ) (id long_name short_name : List ℕ)
    → IsU32 num
    → num ≢ 0
    → a ≢ 0
    → length id < 2 ^ 8
    → length long_name < 2 ^ 8
    → length short_name < 2 ^ 8
    → hw_model < 2 ^ 8
    → role < 2 ^ 8
    → parse_node_info (
        node_info_message num (
          encode_user (some (a ∷ id)) (some (b ∷ long_name)) (some (c ∷ short_name)) hw_model role))
      ≡ done (record {
        valid = true;
        node_num = num;
        long_name = c_str (take 39 (a ∷ id));
        short_name = c_str (take 4 (b ∷ long_name));
      })
parse_node_info-encode_user num a b c hw_model role id long_name short_name hn h0 ha hi hl hs hh
      hr =
    let user : List ℕ = user_message a b c id long_name short_name hw_model role in
    let n : length user < 2 ^ 20 =
      omega (arith, length-user_message a b c id long_name short_name hw_model role) in
    let m : length (encode_fixed32 1 num ++ encode_bytes_field 2 user) < 2 ^ 30 = omega (
      arith,
      n,
      length-append (encode_fixed32 1 num) (encode_bytes_field 2 user),
      length-encode_fixed32 1 num (omega arith),
      length-encode_bytes_field 2 user (omega arith),
      length-encode_varint (length user),
    ) in
    find_node_info num user hn h0 n m
    ∙ parse_user-user_message a b c id long_name short_name hw_model role num h0 ha hi hl hs hh hr
