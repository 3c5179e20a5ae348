-- ===== src/Mcp/Framing/Frames.antt =====
-- The ids in the errors of the decoder, and the stamp of the encoder.
use quarters.Prelude.{
  ◌≤◌, ◌≡◌, refl, sym, ◌∙◌, ◌≢◌, ◌&&◌, not, Option, none, some, arith, leb, if◌then◌else◌, leb→le,
  is_some, if-split, length, ◌==◌, ==-refl, Bytes, bytes_beq_iff, nat_eq, bytes_eq, Result, ok, err,
  ◌>>=◌, codes,
}
use quarters.Mcp.Transport.{Message, InboundFrame, protocol_error}
use quarters.Mcp.Framing.{
  Json, null, boolean, number, text, array, object, Fields, empty, field, get, without, put,
  RequestId, string_id, max_request_id_text, recover_request_id, invalid_request_id,
  recognizable_message, recovered_frame, recover_protocol_value, Line, complete_line, no_line,
  max_line_length_exceeded, io_error, without_bom, value_frame, line_frame, parse, EncodeError,
  stamped_meta, stamp_server_info,
}

pub get-without :
    (a b : Bytes) (fields : Fields)
    → get a (without b fields) ≡ (if b == a then none else get a fields)
get-without a b empty = ground arith
get-without a b (field k v rest) = ground (
  arith,
  get-without a b rest,
  bytes_beq_iff a b,
  bytes_beq_iff a k,
  bytes_beq_iff b k,
  bytes_beq_iff b a,
)

pub get-put :
    (a b : Bytes) (v : Json) (fields : Fields)
    → get a (put b v fields) ≡ (if a == b then some v else get a fields)
get-put a b v fields = ground (arith, get-without a b fields, bytes_beq_iff a b, bytes_beq_iff b a)

-- A text id in an error frame is at most 128 bytes long.
abbrev pub IsShortId : Option RequestId → Type 0
IsShortId (some (string_id id)) = length id ≤ max_request_id_text
IsShortId _ = Unit

abbrev pub IsShort : Option (InboundFrame RequestId) → Type 0
IsShort (some (protocol_error error id)) = IsShortId id
IsShort _ = Unit

pub recover_request_id-IsShortId : (value : Option Json) → IsShortId (recover_request_id value)
unfolding recover_request_id
recover_request_id-IsShortId (some (number (some n))) = tt
recover_request_id-IsShortId (some (number none)) = tt
recover_request_id-IsShortId (some (text value)) =
    if-split IsShortId (leb (length value) max_request_id_text)
      (λ h. leb→le (length value) max_request_id_text h) (λ h. tt)
recover_request_id-IsShortId (some null) = tt
recover_request_id-IsShortId (some (boolean b)) = tt
recover_request_id-IsShortId (some (array a)) = tt
recover_request_id-IsShortId (some (object o)) = tt
recover_request_id-IsShortId none = tt

recovered : (id : Option RequestId) → IsShortId id → IsShort (some (recovered_frame id))
recovered none h = tt
recovered (some id) h = h

recover_protocol_value-IsShort : (value : Json) → IsShort (some (recover_protocol_value value))
unfolding recover_protocol_value
recover_protocol_value-IsShort (object fields) =
    if-split (λ f. IsShort (some f))
      (recognizable_message fields && not (is_some (get (codes "id") fields))) (λ a. tt)
      (λ a.
        if-split (λ f. IsShort (some f))
          (not (recognizable_message fields && is_some (get (codes "id") fields))) (λ b. tt)
          (λ b. recovered _ (recover_request_id-IsShortId (get (codes "id") fields))))
recover_protocol_value-IsShort null = tt
recover_protocol_value-IsShort (boolean b) = tt
recover_protocol_value-IsShort (number n) = tt
recover_protocol_value-IsShort (text t) = tt
recover_protocol_value-IsShort (array a) = tt

-- Whatever line arrives, a text id that the decoder reports in an error is at most 128 bytes long.
pub parse-IsShort :
    (parse_json : Bytes → Option Json) (parse_message : Json → Option (Message RequestId))
    (line : Line)
    → IsShort (parse parse_json parse_message line)
unfolding parse
parse-IsShort parse_json parse_message no_line = tt
parse-IsShort parse_json parse_message max_line_length_exceeded = tt
parse-IsShort parse_json parse_message io_error = tt
parse-IsShort parse_json parse_message (complete_line line) =
    framed_line (parse_json (without_bom line))
  where
    value_short :
        (value : Json) (o : Option (Message RequestId))
        → IsShort (some (value_frame parse_json parse_message value o))
    value_short value (some message) = tt
    value_short value none = recover_protocol_value-IsShort value

    framed_line : (o : Option Json) → IsShort (some (line_frame parse_json parse_message o))
    framed_line none = tt
    framed_line (some value) =
        if-split (λ f. IsShort (some f)) (invalid_request_id value) (λ h. tt)
          (λ h. value_short value (parse_message value))

-- A response before and after the stamp: nothing is changed but the result's metadata, which then
-- holds the implementation; or the metadata was there and no object.
abbrev pub Stamped : Json → Fields → Fields → Result EncodeError Json → Type 0
Stamped implementation fields result (err e) = get (codes "_meta") result ≢ none
Stamped implementation fields result (ok (object after)) =
    ((key : Bytes)
      → get key (without (codes "result") after) ≡ get key (without (codes "result") fields))
    × ((changed : Fields) × (get (codes "result") after ≡ some (object changed))
        × ((key : Bytes)
            → get key (without (codes "_meta") changed) ≡ get key (without (codes "_meta") result))
        × ((meta : Fields) × (get (codes "_meta") changed ≡ some (object meta))
            × (get (codes "io.modelcontextprotocol/serverInfo") meta ≡ some implementation)))
Stamped implementation fields result (ok _) = ⊥

pub put_other :
    (a b : Bytes) (v : Json) (fields : Fields)
    → get a (without b (put b v fields)) ≡ get a (without b fields)
put_other a b v fields =
    get-without a b (put b v fields)
    ∙ (ground (arith, get-put a b v fields, bytes_beq_iff a b, bytes_beq_iff b a)
        ∙ sym (get-without a b fields))

put_same : (a : Bytes) (v : Json) (fields : Fields) → get a (put a v fields) ≡ some v
put_same a v fields = get-put a a v fields ∙ rw (==-refl a) refl

-- The stamp of the server's implementation on a response whose result is an object changes nothing
-- in it but the metadata of the result, and puts the implementation there; it fails only if there
-- is metadata already.
pub stamp_server_info-Stamped :
    (implementation : Json) (fields result : Fields)
    → get (codes "result") fields ≡ some (object result)
    → Stamped implementation fields result (stamp_server_info implementation (object fields))
unfolding stamp_server_info
stamp_server_info-Stamped implementation fields result h =
    rw (h, Stamped) (stamped (get (codes "_meta") result) refl)
  where
    placed :
        (meta : Fields)
        → get (codes "io.modelcontextprotocol/serverInfo") meta ≡ some implementation
        → Stamped implementation fields result (
            ok (
              object
                (put (codes "result") (object (put (codes "_meta") (object meta) result)) fields)))
    placed meta m = (
      λ key.
          put_other key (codes "result") (object (put (codes "_meta") (object meta) result)) fields,
      (
        put (codes "_meta") (object meta) result,
        put_same (codes "result") _ fields,
        λ key. put_other key (codes "_meta") (object meta) result,
        (meta, put_same (codes "_meta") (object meta) result, m),
      ),
    )

    stamped :
        (meta : Option Json)
        → get (codes "_meta") result ≡ meta
        → Stamped implementation fields result (
            stamped_meta implementation meta >>= λ (m : Json).
            ok (object (put (codes "result") (object (put (codes "_meta") m result)) fields)))
    stamped none e =
        placed _ (put_same (codes "io.modelcontextprotocol/serverInfo") implementation empty)
    stamped (some (object meta)) e =
        placed _ (put_same (codes "io.modelcontextprotocol/serverInfo") implementation meta)
    stamped (some null) e = λ n. cc
    stamped (some (boolean b)) e = λ n. cc
    stamped (some (number x)) e = λ n. cc
    stamped (some (text t)) e = λ n. cc
    stamped (some (array a)) e = λ n. cc
