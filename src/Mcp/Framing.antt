-- ===== src/Mcp/Framing.antt =====
-- crates/quarters-mcp/src/transport.rs: the decoder of a line and the encoder of a message. The text
-- of a JSON value is the serde_json crate's: `parse_json`, `parse_message` and `to_vec` are
-- parameters, as is the codec that splits the input into lines.
pub mod Frames
pub mod Justified
pub mod Encoded
use quarters.Prelude.{
  ◌>>=◌, ℕ, ◌+◌, ◌*◌, Bool, false, ◌&&◌, not, Option, none, some, [], ◌∷◌, ◌++◌, ltb, leb,
  if◌then◌else◌, is_some, u64_max, length, ◌==◌, Bytes, nat_eq, bytes_eq, Result, ok, err, codes,
  strip_prefix,
}
use quarters.Mcp.Transport.{
  Message, invalid_request, invalid_params, InboundFrame, message_frame, protocol_error,
  ignored_notification, parse_error_frame, oversized,
}

pub data JsonInteger : Type 0 where
  not_negative negative : ℕ → JsonInteger

mutual
  -- `serde_json::Value`; a number is kept if it fits `i64`, and is `none` if it does not.
  pub data Json : Type 0 where
    null : Json
    boolean : Bool → Json
    number : Option JsonInteger → Json
    text : Bytes → Json
    array : JsonList → Json
    object : Fields → Json

  pub data JsonList : Type 0 where
    end : JsonList
    item : Json → JsonList → JsonList

  -- The members of an object, one for each key.
  pub data Fields : Type 0 where
    empty : Fields
    field : Bytes → Json → Fields → Fields

abbrev pub get : Bytes → Fields → Option Json
get key empty = none
get key (field k v rest) = let found = get key rest in if key == k then some v else found

abbrev pub without : Bytes → Fields → Fields
without key empty = empty
without key (field k v rest) =
    let left = without key rest in if key == k then left else field k v left

-- `Map::insert`.
abbrev pub put : Bytes → Json → Fields → Fields
put key v fields = field key v (without key fields)

abbrev pub as_str : Option Json → Option Bytes
as_str (some (text t)) = some t
as_str _ = none

pub data RequestId : Type 0 where
  number_id : JsonInteger → RequestId
  string_id : Bytes → RequestId

abbrev pub max_request_id_text : ℕ
max_request_id_text = 128

unfoldable pub recover_request_id : Option Json → Option RequestId
recover_request_id (some (number (some n))) = some (number_id n)
recover_request_id (some (text value)) =
    if leb (length value) max_request_id_text then some (string_id value) else none
recover_request_id _ = none

unfoldable pub invalid_request_id : Json → Bool
unfolding recover_request_id
invalid_request_id (object fields) =
    is_some (get (codes "id") fields)
    && not (is_some (recover_request_id (get (codes "id") fields)))
invalid_request_id _ = false

abbrev pub bytes_option_beq : Option Bytes → Bytes → Bool
bytes_option_beq none b = false
bytes_option_beq (some a) b = a == b

abbrev pub recognizable_message : Fields → Bool
recognizable_message fields =
    bytes_option_beq (as_str (get (codes "jsonrpc") fields)) (codes "2.0")
    && is_some (as_str (get (codes "method") fields))

abbrev pub invalid_frame : InboundFrame RequestId
invalid_frame = protocol_error invalid_request none

abbrev pub recovered_frame : Option RequestId → InboundFrame RequestId
recovered_frame none = invalid_frame
recovered_frame (some id) = protocol_error (invalid_params []) (some id)

unfoldable pub recover_protocol_value : Json → InboundFrame RequestId
unfolding recover_request_id
recover_protocol_value (object fields) =
    let has_id = is_some (get (codes "id") fields) in
    if recognizable_message fields && not has_id
    then ignored_notification
    else if not (recognizable_message fields && has_id)
    then invalid_frame
    else recovered_frame (recover_request_id (get (codes "id") fields))
recover_protocol_value _ = invalid_frame

-- What the line codec hands over.
pub data Line : Type 0 where
  complete_line : Bytes → Line
  no_line max_line_length_exceeded io_error : Line

-- The UTF-8 bytes of U+FEFF.
abbrev pub byte_order_mark : Bytes
byte_order_mark = 239 ∷ 187 ∷ 191 ∷ []

abbrev pub without_bom : Bytes → Bytes
without_bom line = elim (strip_prefix byte_order_mark line) [ none ↦ line | some rest ↦ rest ]

module _ (parse_json : Bytes → Option Json)
    (parse_message : Json → Option (Message RequestId)) where
  abbrev pub value_frame : Json → Option (Message RequestId) → InboundFrame RequestId
  value_frame value (some message) = message_frame message
  value_frame value none = recover_protocol_value value

  abbrev pub line_frame : Option Json → InboundFrame RequestId
  line_frame none = parse_error_frame
  line_frame (some value) =
      if invalid_request_id value then invalid_frame else value_frame value (parse_message value)

  -- `BoundedJsonRpcDecoder::parse`.
  unfoldable pub parse : Line → Option (InboundFrame RequestId)
  unfolding invalid_request_id recover_protocol_value
  parse (complete_line line) = some (line_frame (parse_json (without_bom line)))
  parse no_line = none
  parse max_line_length_exceeded = some oversized
  parse io_error = some parse_error_frame

abbrev pub max_mcp_message_bytes : ℕ
max_mcp_message_bytes = 1024 * 1024

-- `ServerJsonRpcMessage`: an error that has an id or none, or any other.
pub data ServerMessage : Type 0 where
  error_message : Option RequestId → ServerMessage
  server_message : ServerMessage

pub data EncodeError : Type 0 where
  not_an_object length_overflowed frame_limit : EncodeError

unfoldable pub ensure_error_id : ServerMessage → Json → Result EncodeError Json
ensure_error_id (error_message none) (object fields) = ok (object (put (codes "id") null fields))
ensure_error_id (error_message none) _ = err not_an_object
ensure_error_id _ value = ok value

abbrev pub stamped_meta : Json → Option Json → Result EncodeError Json
stamped_meta implementation none =
    ok (object (put (codes "io.modelcontextprotocol/serverInfo") implementation empty))
stamped_meta implementation (some (object meta)) =
    ok (object (put (codes "io.modelcontextprotocol/serverInfo") implementation meta))
stamped_meta implementation (some _) = err not_an_object

abbrev pub stamped_result : Json → Fields → Option Json → Result EncodeError Json
stamped_result implementation fields (some (object result)) = do
  meta ← stamped_meta implementation (get (codes "_meta") result)
  ok (object (put (codes "result") (object (put (codes "_meta") meta result)) fields))
stamped_result implementation fields _ = ok (object fields)

unfoldable pub stamp_server_info : Json → Json → Result EncodeError Json
stamp_server_info implementation (object fields) =
    stamped_result implementation fields (get (codes "result") fields)
stamp_server_info implementation value = ok value

module _ (to_vec : Json → Bytes) (implementation : Json) where
  -- The encoded line behind the output so far; `usize` has 64 bits.
  abbrev pub framed : Bytes → Bytes → Bytes × Result EncodeError (Unit {0})
  framed output encoded =
      if ltb u64_max (length encoded + 1)
      then (output, err length_overflowed)
      else if ltb max_mcp_message_bytes (length encoded + 1)
      then (output, err frame_limit)
      else (output ++ encoded ++ (10 ∷ []), ok tt)

  -- `BoundedJsonRpcEncoder::encode`, of a message whose JSON value is `value`.
  unfoldable pub encode :
      Bool → ServerMessage → Json → Bytes → Bytes × Result EncodeError (Unit {0})
  unfolding ensure_error_id stamp_server_info
  encode is_modern_family message value output =
      elim (do
        with_id ← ensure_error_id message value
        if is_modern_family then stamp_server_info implementation with_id else ok with_id) [
          | ok stamped ↦ framed output (to_vec stamped)
          | err e ↦ (output, err e)
        ]
