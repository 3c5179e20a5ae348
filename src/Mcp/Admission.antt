-- ===== src/Mcp/Admission.antt =====
-- crates/quarters-mcp/src/lifecycle.rs: `RequestAdmission`, the table of requests in flight.
-- The mutex makes each method atomic, so a session is a sequence of calls (`Call`, `run`). A
-- `Notify` keeps no state of its own; `released` counts the calls of `notify_waiters`.
pub mod Invariant
pub mod Session
pub mod Release
use quarters.Prelude.{
  ℕ, ◌+◌, ◌≡◌, Bool, true, false, ◌&&◌, ◌||◌, not, Option, none, some, List, [], ◌∷◌, leb, nat_beq,
  if◌then◌else◌, length, Eq, ◌==◌, Map, lookup, insert, remove, keys, member, add, extend, Result,
  ok, err, ltb,
}

abbrev pub max_in_flight_requests : ℕ
max_in_flight_requests = 32

abbrev pub max_session_request_ids : ℕ
max_session_request_ids = 8192

abbrev pub max_request_id_bytes : ℕ
max_request_id_bytes = 128

pub data RequestPhase : Type 0 where
  reserved running handler_done response_started : RequestPhase

pub record RequestState : Type 0 where
  pub phase : RequestPhase
  pub transport_owned : Bool
  pub cancelled : Bool

pub record AdmissionState (Ident : Type 0) : Type 0 where
  pub requests : Map Ident RequestState
  pub seen : List Ident
  pub legacy : Bool

pub record RequestAdmission (Ident : Type 0) : Type 0 where
  pub state : AdmissionState Ident
  pub released : ℕ

pub data AdmissionFailure : Type 0 where
  duplicate cancelled_in_flight capacity session_limit id_too_long : AdmissionFailure

-- The errors by the function that builds them; codes and texts are left out.
pub data ErrorData : Type 0 where
  duplicate_request_error cancelled_request_error request_capacity_error : ErrorData
  request_id_limit_error request_id_length_error : ErrorData

-- `AdmissionFailure::error`.
unfoldable pub failure_error : AdmissionFailure → ErrorData
failure_error duplicate = duplicate_request_error
failure_error cancelled_in_flight = cancelled_request_error
failure_error capacity = request_capacity_error
failure_error session_limit = request_id_limit_error
failure_error id_too_long = request_id_length_error

-- `RequestState::default`.
abbrev pub default_request : RequestState
default_request = record { phase = reserved; transport_owned = true; cancelled = false }

-- The entry that `claim` makes when the transport has reserved none.
abbrev pub claimed_request : RequestState
claimed_request = record { phase = running; transport_owned = false; cancelled = false }

-- `Reserved | HandlerDone`: the phases in which a cancelled request is released at once.
abbrev pub is_idle_phase : RequestPhase → Bool
is_idle_phase reserved = true
is_idle_phase handler_done = true
is_idle_phase _ = false

abbrev pub is_reserved : RequestPhase → Bool
is_reserved reserved = true
is_reserved _ = false

abbrev pub is_response_started : RequestPhase → Bool
is_response_started response_started = true
is_response_started _ = false

abbrev pub new_admission : {Ident : Type 0} → RequestAdmission Ident
new_admission = record { state = record { requests = []; seen = []; legacy = false }; released = 0 }

-- `validate_request_id`, on the UTF-8 length of a string id; a number has none.
abbrev pub is_id_too_long : Option ℕ → Bool
is_id_too_long none = false
is_id_too_long (some bytes) = ltb max_request_id_bytes bytes

module _ {Ident : Type 0} ⦃e : Eq Ident⦄ where
  abbrev pub with_state : RequestAdmission Ident → AdmissionState Ident → RequestAdmission Ident
  with_state a s = record a { state = s }

  -- The tail of `reserve` and of `claim` for an id that is not in flight: session limit, the
  -- session's record of the id, capacity, and the new entry.
  unfoldable pub admit :
      RequestAdmission Ident
      → Ident
      → RequestState
      → RequestAdmission Ident × Result AdmissionFailure (Unit {0})
  admit a id fresh =
      let s = a.state in
      if s.legacy && leb max_session_request_ids (length s.seen)
      then (a, err session_limit)
      else (let noted = record s { seen = if s.legacy then add id s.seen else s.seen } in
          if leb max_in_flight_requests (length s.requests)
          then (with_state a noted, err capacity)
          else (with_state a (record noted { requests = insert id fresh s.requests }), ok tt))

  unfoldable pub reserve :
      (Ident → Option ℕ)
      → RequestAdmission Ident
      → Ident
      → RequestAdmission Ident × Result AdmissionFailure (Unit {0})
  unfolding admit
  reserve text_bytes a id =
      let s = a.state in
      if is_id_too_long (text_bytes id)
      then (a, err id_too_long)
      else if s.legacy && member id s.seen
      then (a, err duplicate)
      else elim (lookup id s.requests) [
        | some existing ↦ (a, err (if existing.cancelled then cancelled_in_flight else duplicate))
        | none ↦ admit a id default_request
      ]

  -- `claim`; the guard that it returns is the id, and dropping it is `finish_handler`.
  unfoldable pub claim :
      (Ident → Option ℕ)
      → RequestAdmission Ident
      → Ident
      → RequestAdmission Ident × Result ErrorData Ident
  unfolding admit failure_error
  claim text_bytes a id =
      let s = a.state in
      elim (lookup id s.requests) [
        | some request ↦
            if is_reserved request.phase
            then (
              with_state a (record s {
                requests = insert id (record request { phase = running }) s.requests;
              }),
              ok id,
            )
            else (a, err duplicate_request_error)
        | none ↦
            if is_id_too_long (text_bytes id)
            then (a, err request_id_length_error)
            else if s.legacy && member id s.seen
            then (a, err duplicate_request_error)
            else (let (a', outcome) = admit a id claimed_request in
                (a', elim outcome [ ok _ ↦ ok id | err f ↦ err (failure_error f) ]))
      ]

  unfoldable pub start_response : RequestAdmission Ident → Ident → RequestAdmission Ident
  start_response a id =
      let s = a.state in
      elim (lookup id s.requests) [
        | none ↦ a
        | some request ↦ with_state a (record s {
          requests = insert id (record request { phase = response_started }) s.requests;
        })
      ]

  -- `requests.remove(id)` and `notify_waiters`.
  abbrev pub release : RequestAdmission Ident → Ident → RequestAdmission Ident
  release a id = record {
    state = record a.state { requests = remove id a.state.requests };
    released = a.released + 1;
  }

  unfoldable pub finish_response : RequestAdmission Ident → Ident → RequestAdmission Ident
  finish_response a id = release a id

  unfoldable pub close : RequestAdmission Ident → RequestAdmission Ident
  close a = record {
    state = record { requests = []; seen = []; legacy = false };
    released = a.released + 1;
  }

  unfoldable pub cancel : RequestAdmission Ident → Ident → RequestAdmission Ident
  cancel a id =
      let s = a.state in
      elim (lookup id s.requests) [
        | none ↦ a
        | some request ↦
            let marked = with_state a (record s {
              requests = insert id (record request { cancelled = true }) s.requests;
            }) in
            if is_idle_phase request.phase then release marked id else marked
      ]

  unfoldable pub enter_legacy : RequestAdmission Ident → RequestAdmission Ident
  enter_legacy a =
      let s = a.state in
      with_state a (record s { legacy = true; seen = extend s.seen (keys s.requests) })

  -- The drop of the guard that `claim` returned.
  unfoldable pub finish_handler : RequestAdmission Ident → Ident → RequestAdmission Ident
  finish_handler a id =
      let s = a.state in
      elim (lookup id s.requests) [
        | none ↦ a
        | some request ↦
            let started = is_response_started request.phase in
            let next = record request {
              phase = if started then response_started else handler_done;
            } in
            let marked = with_state a (record s { requests = insert id next s.requests }) in
            if not request.transport_owned || (request.cancelled && not started)
            then release marked id
            else marked
      ]

-- One call of a method of `RequestAdmission`.
pub data Call (Ident : Type 0) : Type 0 where
  reserve_call claim_call start_response_call finish_response_call : Ident → Call Ident
  cancel_call finish_handler_call : Ident → Call Ident
  enter_legacy_call close_call : Call Ident

module _ {Ident : Type 0} ⦃e : Eq Ident⦄ (text_bytes : Ident → Option ℕ) where
  unfoldable pub call : RequestAdmission Ident → Call Ident → RequestAdmission Ident
  call a (reserve_call id) = (reserve text_bytes a id).0
  call a (claim_call id) = (claim text_bytes a id).0
  call a (start_response_call id) = start_response a id
  call a (finish_response_call id) = finish_response a id
  call a (cancel_call id) = cancel a id
  call a (finish_handler_call id) = finish_handler a id
  call a enter_legacy_call = enter_legacy a
  call a close_call = close a

  unfoldable pub run : RequestAdmission Ident → List (Call Ident) → RequestAdmission Ident
  run a [] = a
  run a (c ∷ cs) = run (call a c) cs
