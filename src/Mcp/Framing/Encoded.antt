-- ===== src/Mcp/Framing/Encoded.antt =====
-- The line that the encoder writes.
use quarters.Prelude.{
  ◌+◌, ◌<◌, ◌≡◌, refl, ◌∙◌, Bool, true, false, not, Option, none, some, [], ◌∷◌, ◌++◌, arith, ltb,
  nat_beq, if◌then◌else◌, u64_max, if-split, length, all, Bytes, bytes_beq_iff, nat_eq, bytes_eq,
  Result, ok, err, ◌>>=◌, codes,
}
use quarters.Mcp.Framing.{
  Json, null, boolean, number, text, array, object, Fields, get, without, put,
  max_mcp_message_bytes, ServerMessage, error_message, server_message, EncodeError, ensure_error_id,
  stamped_meta, stamped_result, stamp_server_info, framed, encode,
}
use quarters.Mcp.Framing.Frames.{get-without, get-put, put_other}

-- No newline among the bytes.
abbrev pub is_one_line : Bytes → Bool
is_one_line line = all (λ b. not (nat_beq b 10)) line

-- The id that a message is sent with: an error without an id has a null one.
abbrev pub sent_id : ServerMessage → Fields → Option Json
sent_id (error_message none) fields = some null
sent_id _ fields = get (codes "id") fields

-- Only the stamp of the modern family touches the result.
abbrev pub ResultKept : Bool → Fields → Fields → Type 0
ResultKept false fields after = get (codes "result") after ≡ get (codes "result") fields
ResultKept true fields after = Unit

-- The JSON value that is sent for the one of a message: of an object, all members but the id and the
-- result are the same.
abbrev pub IsSent : Bool → ServerMessage → Json → Json → Type 0
IsSent modern message (object fields) (object after) =
    ((key : Bytes)
      → get key (without (codes "id") (without (codes "result") after))
        ≡ get key (without (codes "id") (without (codes "result") fields)))
    × (get (codes "id") after ≡ sent_id message fields)
    × ResultKept modern fields after
IsSent modern message (object fields) _ = ⊥
IsSent modern message value sent = sent ≡ value

-- The output after a message is the one before it and a line, or it is the same.
abbrev pub IsWritten :
    (Json → Bytes)
    → Bool
    → ServerMessage
    → Json
    → Bytes
    → Bytes × Result EncodeError (Unit {0})
    → Type 0
IsWritten to_vec modern message value output (after, ok _) =
    (sent : Json) × (after ≡ output ++ to_vec sent ++ (10 ∷ []))
    × (is_one_line (to_vec sent) ≡ true)
    × (length (to_vec sent) < max_mcp_message_bytes)
    × IsSent modern message value sent
IsWritten to_vec modern message value output (after, err _) = after ≡ output

rest_put_first :
    (a b key : Bytes) (v : Json) (fields : Fields)
    → get key (without a (without b (put a v fields))) ≡ get key (without a (without b fields))
rest_put_first a b key v fields = ground (
  arith,
  get-without key a (without b (put a v fields)),
  get-without key a (without b fields),
  get-without key b (put a v fields),
  get-without key b fields,
  get-put key a v fields,
  bytes_beq_iff key a,
  bytes_beq_iff a key,
)

rest_put_second :
    (a b key : Bytes) (v : Json) (fields : Fields)
    → get key (without a (without b (put b v fields))) ≡ get key (without a (without b fields))
rest_put_second a b key v fields = ground (
  arith,
  get-without key a (without b (put b v fields)),
  get-without key a (without b fields),
  put_other key b v fields,
)

-- What is true of the value, if there is one.
abbrev Holds : (Json → Type 0) → Result EncodeError Json → Type 0
Holds P (ok value) = P value
Holds P (err e) = Unit

-- The value with its id, and then with the stamp.
ensure_error_id-IsSent :
    (message : ServerMessage) (value : Json)
    → Holds (IsSent false message value) (ensure_error_id message value)
unfolding ensure_error_id
ensure_error_id-IsSent (error_message none) (object fields) = (
  λ key. rest_put_first (codes "id") (codes "result") key null fields,
  get-put (codes "id") (codes "id") null fields,
  get-put (codes "result") (codes "id") null fields,
)
ensure_error_id-IsSent (error_message none) null = tt
ensure_error_id-IsSent (error_message none) (boolean b) = tt
ensure_error_id-IsSent (error_message none) (number n) = tt
ensure_error_id-IsSent (error_message none) (text t) = tt
ensure_error_id-IsSent (error_message none) (array a) = tt
ensure_error_id-IsSent (error_message (some id)) (object fields) = (λ key. refl, refl, refl)
ensure_error_id-IsSent (error_message (some id)) null = refl
ensure_error_id-IsSent (error_message (some id)) (boolean b) = refl
ensure_error_id-IsSent (error_message (some id)) (number n) = refl
ensure_error_id-IsSent (error_message (some id)) (text t) = refl
ensure_error_id-IsSent (error_message (some id)) (array a) = refl
ensure_error_id-IsSent server_message (object fields) = (λ key. refl, refl, refl)
ensure_error_id-IsSent server_message null = refl
ensure_error_id-IsSent server_message (boolean b) = refl
ensure_error_id-IsSent server_message (number n) = refl
ensure_error_id-IsSent server_message (text t) = refl
ensure_error_id-IsSent server_message (array a) = refl

stamped_result-IsSent :
    (implementation : Json) (message : ServerMessage) (fields after : Fields) (result : Option Json)
    → IsSent false message (object fields) (object after)
    → Holds (IsSent true message (object fields)) (stamped_result implementation after result)
stamped_result-IsSent implementation message fields after (some (object result)) (k, i, _) =
    placed (stamped_meta implementation (get (codes "_meta") result))
  where
    placed :
        (meta : Result EncodeError Json)
        → Holds (IsSent true message (object fields)) (
            meta >>= λ (m : Json).
            ok (object (put (codes "result") (object (put (codes "_meta") m result)) after)))
    placed (ok m) = (
      λ key.
          rest_put_second (codes "id") (codes "result") key (object (put (codes "_meta") m result))
            after
          ∙ k key,
      get-put (codes "id") (codes "result") (object (put (codes "_meta") m result)) after ∙ i,
      tt,
    )
    placed (err e) = tt
stamped_result-IsSent implementation message fields after none (k, i, _) = (k, i, tt)
stamped_result-IsSent implementation message fields after (some null) (k, i, _) = (k, i, tt)
stamped_result-IsSent implementation message fields after (some (boolean b)) (k, i, _) = (k, i, tt)
stamped_result-IsSent implementation message fields after (some (number n)) (k, i, _) = (k, i, tt)
stamped_result-IsSent implementation message fields after (some (text t)) (k, i, _) = (k, i, tt)
stamped_result-IsSent implementation message fields after (some (array a)) (k, i, _) = (k, i, tt)

stamp_server_info-IsSent :
    (implementation : Json) (message : ServerMessage) (value with_id : Json)
    → IsSent false message value with_id
    → Holds (IsSent true message value) (stamp_server_info implementation with_id)
unfolding stamp_server_info
stamp_server_info-IsSent implementation message (object fields) (object after) h =
    stamped_result-IsSent implementation message fields after (get (codes "result") after) h
stamp_server_info-IsSent implementation message (object fields) null h = absurd h
stamp_server_info-IsSent implementation message (object fields) (boolean b) h = absurd h
stamp_server_info-IsSent implementation message (object fields) (number n) h = absurd h
stamp_server_info-IsSent implementation message (object fields) (text t) h = absurd h
stamp_server_info-IsSent implementation message (object fields) (array a) h = absurd h
stamp_server_info-IsSent implementation message null with_id h = rw h refl
stamp_server_info-IsSent implementation message (boolean b) with_id h = rw h refl
stamp_server_info-IsSent implementation message (number n) with_id h = rw h refl
stamp_server_info-IsSent implementation message (text t) with_id h = rw h refl
stamp_server_info-IsSent implementation message (array a) with_id h = rw h refl

stamped :
    (implementation : Json) (modern : Bool) (message : ServerMessage) (value with_id : Json)
    → IsSent false message value with_id
    → Holds
        (IsSent modern message value)
        (if modern then stamp_server_info implementation with_id else ok with_id)
stamped implementation true message value with_id s =
    stamp_server_info-IsSent implementation message value with_id s
stamped implementation false message value with_id s = s

-- When the serializer puts no newline into a value, a message that encode accepts adds one line to the
-- output, shorter than the frame limit, that holds the message's value: an object keeps its members
-- but for the id, which is null exactly for an error without an id and is kept otherwise, and but for
-- the result, which only the modern family may change; what is no object is the same. A message that
-- encode refuses leaves the output as it was.
pub encode-IsWritten :
    (to_vec : Json → Bytes) (implementation : Json) (modern : Bool) (message : ServerMessage)
    (value : Json) (output : Bytes)
    → ((v : Json) → is_one_line (to_vec v) ≡ true)
    → IsWritten to_vec modern message value output
        (encode to_vec implementation modern message value output)
unfolding encode
encode-IsWritten to_vec implementation modern message value output no_newline =
    identified (ensure_error_id message value) (ensure_error_id-IsSent message value)
  where
    line :
        (sent : Json)
        → IsSent modern message value sent
        → IsWritten to_vec modern message value output
            (framed to_vec implementation output (to_vec sent))
    line sent s =
        if-split (IsWritten to_vec modern message value output)
          (ltb u64_max (length (to_vec sent) + 1)) (λ a. refl)
          (λ a.
            if-split (IsWritten to_vec modern message value output)
              (ltb max_mcp_message_bytes (length (to_vec sent) + 1)) (λ b. refl)
              (λ b. (sent, refl, no_newline sent, ground arith, s)))

    written :
        (r : Result EncodeError Json)
        → Holds (IsSent modern message value) r
        → IsWritten to_vec modern message value output (elim r [
          | ok sent ↦ framed to_vec implementation output (to_vec sent)
          | err e ↦ (output, err e)
        ])
    written (ok sent) s = line sent s
    written (err e) s = refl

    identified :
        (r : Result EncodeError Json)
        → Holds (IsSent false message value) r
        → IsWritten to_vec modern message value output
            (elim (r >>= λ (with_id : Json).
              if modern then stamp_server_info implementation with_id else ok with_id) [
                | ok sent ↦ framed to_vec implementation output (to_vec sent)
                | err e ↦ (output, err e)
              ])
    identified (ok with_id) s =
        written (if modern then stamp_server_info implementation with_id else ok with_id)
          (stamped implementation modern message value with_id s)
    identified (err e) s = refl
