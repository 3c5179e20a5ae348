-- ===== src/Examples/Mcp.antt =====
-- The theorems on the MCP transport at concrete requests, with numbers as ids.
use quarters.Prelude.{
  ℕ, ◌<◌, ◌≡◌, refl, ◌≢◌, ◌↔◌, ◌⊎◌, inl, inr, true, false, Option, none, some, List, [], ◌∷◌,
  length, Bytes, nat_eq, bytes_eq, member, lookup, remove, insert, extend, keys, add, ok, err,
  codes,
}
use quarters.Mcp.Admission.{
  max_in_flight_requests, max_session_request_ids, is_id_too_long, handler_done, RequestAdmission,
  duplicate_request_error, admit, reserve, claim, cancel, Call, reserve_call, claim_call,
  enter_legacy, cancel_call, finish_handler_call, enter_legacy_call, call, run, new_admission,
}
use quarters.Mcp.Family.{
  v_2025_11_25, v_2026_07_28, unopened, modern, initialize_request, other_request, ClientRequest,
  expected_version, validate_family_method, Service, validate, begin_request, ServiceEvent, arrives,
  calls, serve, serve_all,
}
use quarters.Mcp.Transport.{
  absent, well_formed, Meta, Message, request_message, parse_error, prepare_message, protocol_error,
  invalid_params, oversized, Transport, receive_turn,
}
use quarters.Mcp.Admission.Invariant.{IsValid, run-IsValid}
use quarters.Mcp.Admission.Session.{reserve_after_use, reserve_iff, claim_after_claim}
use quarters.Mcp.Admission.Release.{call-notifies_leaving}
use quarters.Mcp.Family.Disjoint.{Fits, validate-Fits, serve_all-keeps}
use quarters.Mcp.Family.Remembers.{serve_all-remembers}
use quarters.Mcp.Transport.Kept.{ErrorsKept, Fate, receive_turn-Kept}
use quarters.Mcp.Framing.Justified.{Justified, parse-Justified}
use quarters.Mcp.Framing.Encoded.{IsWritten, encode-IsWritten}
use quarters.Mcp.Transport.Delivery.{
  Handled, prepare_message-Handled, IsSingle, receive_turn-progress, work,
}
use quarters.Mcp.Framing.{
  Json, not_negative, null, number, text, object, Fields, empty, field, RequestId, number_id,
  complete_line, parse, error_message, encode, stamp_server_info, recover_request_id,
  invalid_request_id, recover_protocol_value,
}
use quarters.Mcp.Framing.Frames.{Stamped, stamp_server_info-Stamped}

abbrev short_ids : ℕ → Option ℕ
short_ids id = none

abbrev some_calls : List (Call ℕ)
some_calls =
    reserve_call 1 ∷ claim_call 1 ∷ enter_legacy_call ∷ cancel_call 1 ∷ finish_handler_call 1 ∷ []

run-IsValid_example : IsValid (run short_ids new_admission some_calls).state
run-IsValid_example = run-IsValid short_ids some_calls

abbrev legacy_with_one : RequestAdmission ℕ
legacy_with_one = record {
  state = record { requests = []; seen = 1 ∷ []; legacy = true };
  released = 0;
}

reserve_after_use_example :
    (reserve short_ids (run short_ids legacy_with_one (reserve_call 2 ∷ [])) 1).1 ≢ ok tt
reserve_after_use_example =
    reserve_after_use short_ids legacy_with_one 1 (reserve_call 2 ∷ []) refl refl refl

reserve_iff_example : ((reserve short_ids legacy_with_one 2).1 ≡ ok tt) ↔ (
    (is_id_too_long (short_ids 2) ≡ false)
    × (lookup 2 legacy_with_one.state.requests ≡ none)
    × (length legacy_with_one.state.requests < max_in_flight_requests)
    × ((legacy_with_one.state.legacy ≡ false)
        ⊎ ((member 2 legacy_with_one.state.seen ≡ false)
            × (length legacy_with_one.state.seen < max_session_request_ids))))
reserve_iff_example = reserve_iff short_ids legacy_with_one 2

abbrev empty_admission : RequestAdmission ℕ
empty_admission = new_admission

claim_after_claim_example :
    claim short_ids (run short_ids (claim short_ids empty_admission 5).0 (cancel_call 5 ∷ [])) 5 ≡ (
      run short_ids (claim short_ids empty_admission 5).0 (cancel_call 5 ∷ []),
      err duplicate_request_error,
    )
unfolding claim admit lookup insert
claim_after_claim_example =
    claim_after_claim short_ids empty_admission 5 (cancel_call 5 ∷ []) refl refl

abbrev one_running : RequestAdmission ℕ
one_running = record {
  state = record {
    requests = (5, record { phase = handler_done; transport_owned = true; cancelled = false }) ∷ [];
    seen = [];
    legacy = false;
  };
  released = 3;
}

call-notifies_leaving_example :
    one_running.released < (call short_ids one_running (cancel_call 5)).released
unfolding call cancel lookup insert remove
call-notifies_leaving_example =
    call-notifies_leaving short_ids one_running 5 (cancel_call 5) refl refl

abbrev new_service : Service ℕ
new_service = record { family = unopened; admission = new_admission }

abbrev legacy_initialize : ClientRequest
legacy_initialize = record { method = initialize_request; protocol_version = some v_2025_11_25 }

abbrev modern_request : ClientRequest
modern_request = record { method = other_request; protocol_version = some v_2026_07_28 }

validate-Fits_example : Fits (validate new_service legacy_initialize).0.family legacy_initialize
unfolding validate expected_version validate_family_method
validate-Fits_example = validate-Fits new_service legacy_initialize refl

abbrev modern_service : Service ℕ
modern_service = record { family = modern; admission = new_admission }

serve_all-keeps_example :
    (serve_all short_ids modern_service
      (arrives 1 legacy_initialize ∷ calls (claim_call 2) ∷ [])).family
    ≡ modern_service.family
serve_all-keeps_example =
    serve_all-keeps short_ids modern_service
      (arrives 1 legacy_initialize ∷ calls (claim_call 2) ∷ []) refl

abbrev opened : List (ServiceEvent ℕ)
opened = arrives 1 legacy_initialize ∷ []

abbrev legacy_call : ClientRequest
legacy_call = record { method = other_request; protocol_version = none }

abbrev later : List (ServiceEvent ℕ)
later = calls (finish_handler_call 2) ∷ calls (reserve_call 3) ∷ []

abbrev remembering : RequestAdmission ℕ
remembering =
    (serve_all short_ids
      (serve short_ids (serve_all short_ids new_service opened) (arrives 2 legacy_call))
      later).admission

serve_all-remembers_example :
    (remembering.state.legacy ≡ true)
    × (member 2 remembering.state.seen ≡ true)
    × ((reserve short_ids remembering 2).1 ≢ ok tt)
unfolding serve_all serve begin_request validate expected_version validate_family_method claim admit
    lookup enter_legacy insert extend keys remove add
serve_all-remembers_example =
    serve_all-remembers short_ids opened later 2 legacy_call (refl, tt) (refl, (refl, tt)) refl refl

abbrev no_meta : Meta
no_meta = record { missing_required = []; client_info = well_formed; log_level = absent }

prepare_message-Handled_example :
    Handled one_running
      (request_message 5 modern_request no_meta)
      5
      (prepare_message short_ids modern one_running (request_message 5 modern_request no_meta))
prepare_message-Handled_example =
    prepare_message-Handled short_ids modern one_running 5 modern_request no_meta

abbrev waiting_transport : Transport ℕ
waiting_transport = record {
  family = modern;
  admission = one_running;
  error_writer_failed = false;
  pending_error = none;
  awaiting_release =
      some (record { message = request_message 5 modern_request no_meta; id = 5; deadline = 10 });
  inbox = oversized ∷ [];
  errors = [];
}

abbrev full_transport : Transport ℕ
full_transport = record waiting_transport {
  awaiting_release = none;
  pending_error = some (record { error = parse_error; id = none; terminal = false });
}

receive_turn-Kept_example :
    IsSingle (receive_turn short_ids 3 waiting_transport).0
    × (ErrorsKept waiting_transport (receive_turn short_ids 3 waiting_transport).0
        × Fate waiting_transport 5
            (request_message 5 modern_request no_meta)
            (receive_turn short_ids 3 waiting_transport))
receive_turn-Kept_example = receive_turn-Kept short_ids 3 waiting_transport (inr refl)

receive_turn-progress_example :
    work (receive_turn short_ids 3 full_transport).0 < work full_transport
unfolding receive_turn
receive_turn-progress_example =
    receive_turn-progress short_ids 3 full_transport (inl refl) tt (λ w e. cc)

-- A JSON value with the version, a method and an id.
abbrev call_fields : Fields
call_fields = field (codes "jsonrpc") (text (codes "2.0")) (
    field (codes "method") (text (codes "x"))
      (field (codes "id") (number (some (not_negative 7))) empty))

abbrev parse_as_call : Bytes → Option Json
parse_as_call line = some (object call_fields)

abbrev no_message : Json → Option (Message RequestId)
no_message value = none

parse-Justified_example :
    Justified parse_as_call no_message
      (complete_line (codes "x"))
      (parse parse_as_call no_message (complete_line (codes "x")))
parse-Justified_example = parse-Justified parse_as_call no_message (complete_line (codes "x"))

answers_call :
    parse parse_as_call no_message (complete_line (codes "x"))
    ≡ some (protocol_error (invalid_params []) (some (number_id (not_negative 7))))
unfolding parse recover_request_id invalid_request_id recover_protocol_value
answers_call = refl

abbrev braces : Json → Bytes
braces value = codes "{}"

encode-IsWritten_example :
    IsWritten braces true
      (error_message none)
      (object call_fields)
      (codes "a")
      (encode braces null true (error_message none) (object call_fields) (codes "a"))
encode-IsWritten_example =
    encode-IsWritten braces null true (error_message none) (object call_fields) (codes "a")
      (λ v. refl)

abbrev response_fields : Fields
response_fields = field (codes "result") (object empty) empty

stamp_server_info-Stamped_example :
    Stamped null response_fields empty (stamp_server_info null (object response_fields))
stamp_server_info-Stamped_example = stamp_server_info-Stamped null response_fields empty refl
