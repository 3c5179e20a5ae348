-- ===== src/Mcp/Framing/Justified.antt =====
-- What a frame of the decoder says of its line.
use quarters.Prelude.{
  ◌≡◌, refl, subst, ◌⊎◌, inl, inr, Bool, true, false, ◌&&◌, not, Option, none, some, arith,
  Option-cases, is_some, if-split, Bytes, nat_eq, bytes_eq, codes,
}
use quarters.Mcp.Transport.{
  Message, InboundFrame, message_frame, protocol_error, ignored_notification, parse_error_frame,
  oversized,
}
use quarters.Mcp.Framing.{
  Json, null, boolean, number, text, array, object, Fields, get, RequestId, recover_request_id,
  invalid_request_id, recognizable_message, recovered_frame, recover_protocol_value, Line,
  complete_line, no_line, max_line_length_exceeded, io_error, without_bom, value_frame, line_frame,
  parse,
}
use quarters.Mcp.Framing.Frames.{IsShortId, recover_request_id-IsShortId}

-- The id of a JSON value that is an object.
abbrev pub id_of : Json → Option Json
id_of (object fields) = get (codes "id") fields
id_of _ = none

abbrev pub is_object : Json → Bool
is_object (object fields) = true
is_object _ = false

-- What a frame says of the JSON value on its line.
abbrev pub Says : (Json → Option (Message RequestId)) → Json → InboundFrame RequestId → Type 0
Says parse_message value (message_frame message) =
    (parse_message value ≡ some message)
    × ((id_of value ≡ none) ⊎ (is_some (recover_request_id (id_of value)) ≡ true))
Says parse_message value ignored_notification =
    (parse_message value ≡ none) × ((is_object value ≡ true) × (id_of value ≡ none))
Says parse_message value (protocol_error error (some x)) =
    (parse_message value ≡ none)
    × ((recover_request_id (id_of value) ≡ some x) × IsShortId (some x))
Says parse_message value (protocol_error error none) =
    (is_some (recover_request_id (id_of value)) ≡ false) ⊎ (parse_message value ≡ none)
Says parse_message value parse_error_frame = ⊥
Says parse_message value oversized = ⊥

-- The frame of a line that the codec hands over, and of the codec's own outcomes.
abbrev pub Justified :
    (Bytes → Option Json)
    → (Json → Option (Message RequestId))
    → Line
    → Option (InboundFrame RequestId)
    → Type 0
Justified parse_json parse_message (complete_line line) frame =
    ((frame ≡ some parse_error_frame) × (parse_json (without_bom line) ≡ none))
    ⊎ ((value : Json) × (f : InboundFrame RequestId) × (parse_json (without_bom line) ≡ some value)
        × (frame ≡ some f)
        × Says parse_message value f)
Justified parse_json parse_message no_line frame = frame ≡ none
Justified parse_json parse_message max_line_length_exceeded frame = frame ≡ some oversized
Justified parse_json parse_message io_error frame = frame ≡ some parse_error_frame

module _ (parse_json : Bytes → Option Json)
    (parse_message : Json → Option (Message RequestId)) where
  -- Of a value that is no message.
  recovered_id :
      (fields : Fields) (x : Option RequestId)
      → parse_message (object fields) ≡ none
      → recover_request_id (get (codes "id") fields) ≡ x
      → Says parse_message (object fields) (recovered_frame x)
  recovered_id fields none n r = inr n
  recovered_id fields (some x) n r =
      (n, (r, subst IsShortId r (recover_request_id-IsShortId (get (codes "id") fields))))

  recovered :
      (value : Json)
      → parse_message value ≡ none
      → Says parse_message value (recover_protocol_value value)
  unfolding recover_protocol_value
  recovered (object fields) n =
      if-split (Says parse_message (object fields))
        (recognizable_message fields && not (is_some (get (codes "id") fields)))
        (λ a. (n, (refl, ground (arith, a))))
        (λ a.
          if-split (Says parse_message (object fields))
            (not (recognizable_message fields && is_some (get (codes "id") fields))) (λ b. inr n)
            (λ b. recovered_id fields (recover_request_id (get (codes "id") fields)) n refl))
  recovered null n = inr n
  recovered (boolean b) n = inr n
  recovered (number x) n = inr n
  recovered (text t) n = inr n
  recovered (array a) n = inr n

  -- Of a value without an invalid id.
  valid_id :
      (value : Json)
      → invalid_request_id value ≡ false
      → (id_of value ≡ none) ⊎ (is_some (recover_request_id (id_of value)) ≡ true)
  unfolding invalid_request_id
  valid_id (object fields) v = elim (Option-cases (get (codes "id") fields)) [
    | inl n ↦ inl n
    | inr (x, p) ↦ inr (ground (arith, p, v))
  ]
  valid_id null v = inl refl
  valid_id (boolean b) v = inl refl
  valid_id (number x) v = inl refl
  valid_id (text t) v = inl refl
  valid_id (array a) v = inl refl

  invalid_id :
      (value : Json)
      → invalid_request_id value ≡ true
      → is_some (recover_request_id (id_of value)) ≡ false
  unfolding invalid_request_id
  invalid_id (object fields) v = ground (arith, v)
  invalid_id null v = cc
  invalid_id (boolean b) v = cc
  invalid_id (number x) v = cc
  invalid_id (text t) v = cc
  invalid_id (array a) v = cc

  value_frame-Says :
      (value : Json) (o : Option (Message RequestId))
      → parse_message value ≡ o
      → invalid_request_id value ≡ false
      → Says parse_message value (value_frame parse_json parse_message value o)
  value_frame-Says value (some message) p v = (p, valid_id value v)
  value_frame-Says value none p v = recovered value p

  line_frame-Justified :
      (line : Bytes) (o : Option Json)
      → parse_json (without_bom line) ≡ o
      → Justified parse_json parse_message
          (complete_line line)
          (some (line_frame parse_json parse_message o))
  line_frame-Justified line none p = inl (refl, p)
  line_frame-Justified line (some value) p = inr (
    value,
    line_frame parse_json parse_message (some value),
    p,
    refl,
    if-split (Says parse_message value) (invalid_request_id value) (λ v. inl (invalid_id value v))
        (λ v. value_frame-Says value (parse_message value) refl v),
  )

  -- The frame of a line is justified by the JSON value on it. A message is what the value parses to, and
  -- the value has no id or a valid one; a line is ignored only if it holds an object that has no id
  -- and is no message; an error that has an id has the valid id of the value, of at most 128 bytes if
  -- it is a text, and the value is no message; an error without an id is of a value that is no message
  -- or has no valid id; a parse error is of a line without a JSON value, or of the codec.
  pub parse-Justified :
      (line : Line) → Justified parse_json parse_message line (parse parse_json parse_message line)
  unfolding parse
  parse-Justified (complete_line line) =
      line_frame-Justified line (parse_json (without_bom line)) refl
  parse-Justified no_line = refl
  parse-Justified max_line_length_exceeded = refl
  parse-Justified io_error = refl
