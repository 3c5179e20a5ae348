-- ===== src/Mcp/Transport.antt =====
-- crates/quarters-mcp/src/transport.rs: what the stdio transport does with a decoded message, and the
-- loop of `receive`. The writer task, the channel and the clock are outside: a step of the loop is
-- told the time, and `error_sender` hands a message over at once.
pub mod Delivery
pub mod Kept
use quarters.Prelude.{
  ℕ, ◌+◌, Bool, true, false, ◌||◌, not, Option, none, some, List, [], ◌∷◌, ◌++◌, ltb, if◌then◌else◌,
  is_some, Eq, Bytes, nat_eq, bytes_eq, keys, Result, ok, err, codes,
}
use quarters.Mcp.Admission.{
  RequestAdmission, AdmissionFailure, duplicate, cancelled_in_flight, capacity, ErrorData,
  failure_error, reserve, cancel,
}
use quarters.Mcp.Family.{
  FamilyState, Method, ping_request, ClientRequest, is_initialize, is_unopened, is_legacy,
}

-- A field of the metadata that has to parse if it is there.
pub data MetaField : Type 0 where
  absent malformed well_formed : MetaField

-- The metadata of a request: the required keys that the rmcp crate reports missing, and two fields.
pub record Meta : Type 0 where
  pub missing_required : List Bytes
  pub client_info : MetaField
  pub log_level : MetaField

-- `ClientJsonRpcMessage`, as far as this file looks at it. A cancellation names an id or none.
pub data Message (Ident : Type 0) : Type 0 where
  request_message : Ident → ClientRequest → Meta → Message Ident
  cancelled_notification : Option Ident → Message Ident
  notification other_message : Message Ident

-- The errors that the transport answers with itself.
pub data TransportError : Type 0 where
  parse_error invalid_request ping_not_found : TransportError
  invalid_params : List Bytes → TransportError
  refused : ErrorData → TransportError

pub record PendingError (Ident : Type 0) : Type 0 where
  pub error : TransportError
  pub id : Option Ident
  pub terminal : Bool

pub data Preparation (Ident : Type 0) : Type 0 where
  deliver : Message Ident → Preparation Ident
  ignore close_transport : Preparation Ident
  reject : PendingError Ident → Preparation Ident
  await_release : Message Ident → Ident → Preparation Ident

pub record AwaitingRelease (Ident : Type 0) : Type 0 where
  pub message : Message Ident
  pub id : Ident
  pub deadline : ℕ

abbrev pub cancelled_id_release_wait : ℕ
cancelled_id_release_wait = 5

abbrev pub client_info_meta_key : Bytes
client_info_meta_key = codes "io.modelcontextprotocol/clientInfo"

abbrev pub log_level_meta_key : Bytes
log_level_meta_key = codes "io.modelcontextprotocol/logLevel"

abbrev pub malformed_key : MetaField → Bytes → List Bytes
malformed_key malformed key = key ∷ []
malformed_key _ key = []

abbrev pub is_ping : Method → Bool
is_ping ping_request = true
is_ping _ = false

-- `modern_metadata_error`, for a request.
unfoldable pub modern_metadata_error : FamilyState → ClientRequest → Meta → Option TransportError
modern_metadata_error family request meta =
    if is_legacy family || is_initialize request.method
    then none
    else if is_ping request.method
    then (if is_some request.protocol_version then some ping_not_found else none)
    else elim (meta.missing_required
        ++ malformed_key meta.client_info client_info_meta_key
        ++ malformed_key meta.log_level log_level_meta_key) [
          | [] ↦ none
          | key ∷ keys ↦ some (invalid_params (key ∷ keys))
        ]

abbrev pub is_capacity : AdmissionFailure → Bool
is_capacity capacity = true
is_capacity _ = false

-- An error that ends the session unless it says that the table is full.
abbrev pub refusal : {Ident : Type 0} → AdmissionFailure → Ident → PendingError Ident
refusal failure id = record {
  error = refused (failure_error failure);
  id = some id;
  terminal = not (is_capacity failure);
}

module _ {Ident : Type 0} where
  -- What follows `reserve` in `prepare_message`.
  abbrev pub reserved_message :
      Message Ident
      → Ident
      → RequestAdmission Ident × Result AdmissionFailure (Unit {0})
      → RequestAdmission Ident × Preparation Ident
  reserved_message message id (admission, ok _) = (admission, deliver message)
  reserved_message message id (admission, err duplicate) = (admission, close_transport)
  reserved_message message id (admission, err cancelled_in_flight) =
      (admission, await_release message id)
  reserved_message message id (admission, err failure) = (admission, reject (refusal failure id))

  -- The check of the metadata comes before `reserve`, whose result is `outcome`.
  abbrev pub checked_message :
      Option TransportError
      → RequestAdmission Ident
      → Message Ident
      → Ident
      → RequestAdmission Ident × Result AdmissionFailure (Unit {0})
      → RequestAdmission Ident × Preparation Ident
  checked_message (some error) admission message id outcome =
      (admission, reject (record { error = error; id = some id; terminal = false }))
  checked_message none admission message id outcome = reserved_message message id outcome

  -- What follows `reserve` in `try_admit`: `none` hands the waiting request back.
  abbrev pub admitted_message :
      ℕ
      → AwaitingRelease Ident
      → RequestAdmission Ident × Result AdmissionFailure (Unit {0})
      → RequestAdmission Ident × Option (Preparation Ident)
  admitted_message now waiting (admission, ok _) = (admission, some (deliver waiting.message))
  admitted_message now waiting (admission, err cancelled_in_flight) =
      if ltb now waiting.deadline then (admission, none) else (
        admission,
        some (
            reject (record {
              error = refused (failure_error cancelled_in_flight);
              id = some waiting.id;
              terminal = false;
            })),
      )
  admitted_message now waiting (admission, err duplicate) = (admission, some close_transport)
  admitted_message now waiting (admission, err failure) =
      (admission, some (reject (refusal failure waiting.id)))

module _ {Ident : Type 0} ⦃e : Eq Ident⦄ (text_bytes : Ident → Option ℕ) where
  unfoldable pub prepare_message :
      FamilyState
      → RequestAdmission Ident
      → Message Ident
      → RequestAdmission Ident × Preparation Ident
  unfolding reserve cancel modern_metadata_error
  prepare_message family admission (request_message id request meta) =
      checked_message (modern_metadata_error family request meta) admission
        (request_message id request meta) id (reserve text_bytes admission id)
  prepare_message family admission (cancelled_notification target) =
      if is_unopened family then (admission, ignore) else elim target [
        | none ↦ (admission, deliver (cancelled_notification none))
        | some id ↦ (cancel admission id, deliver (cancelled_notification (some id)))
      ]
  prepare_message family admission notification =
      if is_unopened family then (admission, ignore) else (admission, deliver notification)
  prepare_message family admission other_message = (admission, deliver other_message)

  unfoldable pub try_admit :
      ℕ
      → RequestAdmission Ident
      → AwaitingRelease Ident
      → RequestAdmission Ident × Option (Preparation Ident)
  unfolding reserve
  try_admit now admission waiting =
      admitted_message now waiting (reserve text_bytes admission waiting.id)

-- What the decoder makes of a line.
pub data InboundFrame (Ident : Type 0) : Type 0 where
  message_frame : Message Ident → InboundFrame Ident
  protocol_error : TransportError → Option Ident → InboundFrame Ident
  ignored_notification parse_error_frame oversized : InboundFrame Ident

pub record Transport (Ident : Type 0) : Type 0 where
  pub family : FamilyState
  pub admission : RequestAdmission Ident
  pub error_writer_failed : Bool
  pub pending_error : Option (PendingError Ident)
  pub awaiting_release : Option (AwaitingRelease Ident)
  -- The frames that the reader has not handed over, and the errors handed to the writer task.
  pub inbox : List (InboundFrame Ident)
  pub errors : List (PendingError Ident)

-- One turn of the loop of `receive`: it returns, or goes on.
pub data Turn (Ident : Type 0) : Type 0 where
  returns : Option (Message Ident) → Turn Ident
  goes_on : Turn Ident

module _ {Ident : Type 0} where
  abbrev pub settle : ℕ → Transport Ident → Preparation Ident → Transport Ident × Turn Ident
  settle now t (deliver message) = (t, returns (some message))
  settle now t ignore = (t, goes_on)
  settle now t (reject pending) = (record t { pending_error = some pending }, goes_on)
  settle now t close_transport = (t, returns none)
  settle now t (await_release message id) = (
    record t {
      awaiting_release =
          some (record { message = message; id = id; deadline = now + cancelled_id_release_wait });
    },
    goes_on,
  )

  -- The first arm of the loop: `Ok(Ignore | AwaitRelease)` does nothing, `Err` stores the request again.
  abbrev pub resettle :
      ℕ
      → Transport Ident
      → AwaitingRelease Ident
      → Option (Preparation Ident)
      → Transport Ident × Turn Ident
  resettle now t waiting none = (record t { awaiting_release = some waiting }, goes_on)
  resettle now t waiting (some (await_release message id)) = (t, goes_on)
  resettle now t waiting (some other) = settle now t other

  abbrev pub pending_frame : TransportError → Option Ident → PendingError Ident
  pending_frame error id = record { error = error; id = id; terminal = false }

module _ {Ident : Type 0} ⦃e : Eq Ident⦄ (text_bytes : Ident → Option ℕ) where
  abbrev pub read_frame :
      ℕ → Transport Ident → List (InboundFrame Ident) → Transport Ident × Turn Ident
  read_frame now t [] = (t, returns none)
  read_frame now t (message_frame message ∷ rest) =
      let (admission, preparation) = prepare_message text_bytes t.family t.admission message in
      settle now (record t { inbox = rest; admission = admission }) preparation
  read_frame now t (protocol_error error id ∷ rest) =
      (record t { inbox = rest; pending_error = some (pending_frame error id) }, goes_on)
  read_frame now t (ignored_notification ∷ rest) = (record t { inbox = rest }, goes_on)
  read_frame now t (parse_error_frame ∷ rest) =
      (record t { inbox = rest; pending_error = some (pending_frame parse_error none) }, goes_on)
  read_frame now t (oversized ∷ rest) = (record t { inbox = rest }, returns none)

  abbrev pub send_error :
      ℕ → Transport Ident → Option (PendingError Ident) → Transport Ident × Turn Ident
  send_error now t none = read_frame now t t.inbox
  send_error now t (some pending) = (
    record t { pending_error = none; errors = t.errors ++ (pending ∷ []) },
    if pending.terminal then returns none else goes_on,
  )

  abbrev pub admit_waiting :
      ℕ → Transport Ident → Option (AwaitingRelease Ident) → Transport Ident × Turn Ident
  admit_waiting now t none = send_error now t t.pending_error
  admit_waiting now t (some waiting) =
      let (admission, outcome) = try_admit text_bytes now t.admission waiting in
      resettle now (record t { awaiting_release = none; admission = admission }) waiting outcome

  -- One turn of the loop of `receive`.
  unfoldable pub receive_turn : ℕ → Transport Ident → Transport Ident × Turn Ident
  unfolding try_admit prepare_message
  receive_turn now t =
      if t.error_writer_failed then (t, returns none) else admit_waiting now t t.awaiting_release
