-- ===== src/Mcp/Family.antt =====
-- crates/quarters-mcp/src/lifecycle.rs: `ProtocolFamily` and `QuartersService::handle_request`.
-- The request of the rmcp crate is cut down to what the file looks at: which variant it is, and the
-- protocol version that its metadata names.
pub mod Disjoint
pub mod Remembers
use quarters.Prelude.{
  ℕ, Bool, true, false, ◌&&◌, not, Option, none, some, List, [], ◌∷◌, if◌then◌else◌, Eq, ◌==◌,
  Bytes, nat_eq, bytes_eq, Result, ok, err,
}
use quarters.Mcp.Admission.{RequestAdmission, ErrorData, claim, enter_legacy, Call, call}

-- The versions that the source compares; `other_version` is any other string.
pub data ProtocolVersion : Type 0 where
  v_2025_11_25 v_2026_07_28 : ProtocolVersion
  other_version : Bytes → ProtocolVersion

abbrev pub version_beq : ProtocolVersion → ProtocolVersion → Bool
version_beq v_2025_11_25 v_2025_11_25 = true
version_beq v_2026_07_28 v_2026_07_28 = true
version_beq (other_version a) (other_version b) = a == b
version_beq _ _ = false

pub data FamilyState : Type 0 where
  unopened modern legacy : FamilyState

-- The variants of `ClientRequest` that the source names; `other_request` is any other.
pub data Method : Type 0 where
  initialize_request discover_request subscriptions_listen_request : Method
  get_task_request update_task_request cancel_task_request : Method
  ping_request subscribe_request unsubscribe_request other_request : Method

pub record ClientRequest : Type 0 where
  pub method : Method
  pub protocol_version : Option ProtocolVersion

pub data FamilyError : Type 0 where
  method_not_found unsupported_protocol_version : ProtocolVersion → FamilyError
  not_admitted : ErrorData → FamilyError

abbrev pub is_initialize : Method → Bool
is_initialize initialize_request = true
is_initialize _ = false

abbrev pub is_unopened : FamilyState → Bool
is_unopened unopened = true
is_unopened _ = false

abbrev pub is_legacy : FamilyState → Bool
is_legacy legacy = true
is_legacy _ = false

abbrev pub is_modern : FamilyState → Bool
is_modern modern = true
is_modern _ = false

unfoldable pub expected_version : FamilyState → Bool → ProtocolVersion
expected_version unopened true = v_2025_11_25
expected_version legacy opening_legacy = v_2025_11_25
expected_version unopened false = v_2026_07_28
expected_version modern opening_legacy = v_2026_07_28

-- The methods of the other family, by the version that is expected.
abbrev pub modern_only : Method → Bool
modern_only discover_request = true
modern_only subscriptions_listen_request = true
modern_only get_task_request = true
modern_only update_task_request = true
modern_only cancel_task_request = true
modern_only _ = false

abbrev pub legacy_only : Method → Bool
legacy_only ping_request = true
legacy_only subscribe_request = true
legacy_only unsubscribe_request = true
legacy_only _ = false

unfoldable pub validate_family_method :
    Method → FamilyState → ProtocolVersion → Result FamilyError (Unit {0})
validate_family_method method state expected =
    if not (is_unopened state) && is_initialize method
    then err (method_not_found expected)
    else (let cross_family =
          if version_beq expected v_2025_11_25 then modern_only method else legacy_only method in
        if cross_family then err (method_not_found expected) else ok tt)

-- The version that the request names, if it names another one than the expected.
abbrev pub version_mismatch : Option ProtocolVersion → ProtocolVersion → Option ProtocolVersion
version_mismatch none expected = none
version_mismatch (some requested) expected =
    if not (version_beq requested expected) then some requested else none

pub record Service (Ident : Type 0) : Type 0 where
  pub family : FamilyState
  pub admission : RequestAdmission Ident

module _ {Ident : Type 0} ⦃e : Eq Ident⦄ where
  -- `ProtocolFamily::validate`.
  unfoldable pub validate :
      Service Ident → ClientRequest → Service Ident × Result FamilyError (Unit {0})
  unfolding expected_version validate_family_method enter_legacy
  validate s request =
      let opening_legacy = is_initialize request.method in
      let expected = expected_version s.family opening_legacy in
      elim (validate_family_method request.method s.family expected) [
        | err f ↦ (s, err f)
        | ok _ ↦ elim (version_mismatch request.protocol_version expected) [
          | some requested ↦ (s, err (unsupported_protocol_version requested))
          | none ↦
              if opening_legacy
              then (record { family = legacy; admission = enter_legacy s.admission }, ok tt)
              else if is_unopened s.family
              then (record s { family = modern }, ok tt)
              else (s, ok tt)
        ]
      ]

  abbrev pub claim_valid :
      (Ident → Option ℕ)
      → Ident
      → Service Ident × Result FamilyError (Unit {0})
      → Service Ident × Result FamilyError Ident
  claim_valid text_bytes id (s, err f) = (s, err f)
  claim_valid text_bytes id (s, ok _) =
      let (admission, claimed) = claim text_bytes s.admission id in
      (
        record s { admission = admission },
        elim claimed [ ok guard ↦ ok guard | err d ↦ err (not_admitted d) ],
      )

  -- `QuartersService::handle_request` up to the call of the inner handler: on success the request
  -- runs, until its guard is dropped by `finish_handler`.
  unfoldable pub begin_request :
      (Ident → Option ℕ)
      → Service Ident
      → Ident
      → ClientRequest
      → Service Ident × Result FamilyError Ident
  unfolding validate claim
  begin_request text_bytes s id request = claim_valid text_bytes id (validate s request)

-- What can happen to a service: a request arrives at it, or the transport or a handler calls its
-- admission table.
pub data ServiceEvent (Ident : Type 0) : Type 0 where
  arrives : Ident → ClientRequest → ServiceEvent Ident
  calls : Call Ident → ServiceEvent Ident

module _ {Ident : Type 0} ⦃e : Eq Ident⦄ (text_bytes : Ident → Option ℕ) where
  unfoldable pub serve : Service Ident → ServiceEvent Ident → Service Ident
  unfolding begin_request call
  serve s (arrives id request) = (begin_request text_bytes s id request).0
  serve s (calls c) = record s { admission = call text_bytes s.admission c }

  unfoldable pub serve_all : Service Ident → List (ServiceEvent Ident) → Service Ident
  serve_all s [] = s
  serve_all s (x ∷ xs) = serve_all (serve s x) xs
