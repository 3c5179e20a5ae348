-- ===== src/Mcp/Family/Disjoint.antt =====
-- The lifecycle family of a connection, and the requests that fit it.
use quarters.Prelude.{
  ℕ, ◌≡◌, refl, sym, ap, ◌∙◌, inl, inr, Bool, true, false, Option, none, List, [], ◌∷◌, arith,
  Option-cases, All, Eq, nat_eq, bytes_eq, lookup, Result, ok, err, is_ok,
}
use quarters.Mcp.Admission.{
  RequestState, RequestAdmission, default_request, claimed_request, admit, reserve, claim,
  start_response, finish_response, cancel, enter_legacy, finish_handler, Call, reserve_call,
  claim_call, start_response_call, finish_response_call, cancel_call, finish_handler_call,
  enter_legacy_call, close_call, call,
}
use quarters.Mcp.Family.{
  ProtocolVersion, v_2025_11_25, v_2026_07_28, FamilyState, unopened, modern, legacy, Method,
  ClientRequest, FamilyError, is_initialize, is_unopened, is_legacy, expected_version, modern_only,
  legacy_only, validate_family_method, version_mismatch, Service, validate, claim_valid,
  begin_request, ServiceEvent, arrives, calls, serve, serve_all,
}

-- A request that a family accepts.
abbrev pub Fits : FamilyState → ClientRequest → Type 0
Fits unopened request = ⊥
Fits modern request =
    (is_initialize request.method ≡ false)
    × ((legacy_only request.method ≡ false)
        × (version_mismatch request.protocol_version v_2026_07_28 ≡ none))
Fits legacy request =
    (modern_only request.method ≡ false)
    × (version_mismatch request.protocol_version v_2025_11_25 ≡ none)

module _ {Ident : Type 0} ⦃e : Eq Ident⦄ where
  -- What `validate` does to a service before and after.
  abbrev Judged :
      FamilyState
      → ClientRequest
      → Service Ident
      → Service Ident × Result FamilyError (Unit {0})
      → Type 0
  Judged f request s (after, ok _) =
      Fits after.family request × (is_unopened f ≡ false → after.family ≡ f)
  Judged f request s (after, err _) = after ≡ s

  judge :
      (f : FamilyState) (a : RequestAdmission Ident) (m : Method) (v : Option ProtocolVersion)
      → Judged f
          (record { method = m; protocol_version = v })
          (record { family = f; admission = a })
          (validate
            (record { family = f; admission = a })
            (record { method = m; protocol_version = v }))
  unfolding validate expected_version validate_family_method
  judge unopened a m v = ground arith
  judge modern a m v = ground arith
  judge legacy a m v = ground arith

  validate_lem :
      (s : Service Ident) (request : ClientRequest)
      → ((is_ok (validate s request).1 ≡ true → Fits (validate s request).0.family request)
          × (is_ok (validate s request).1 ≡ false → (validate s request).0 ≡ s))
        × (is_unopened s.family ≡ false → (validate s request).0.family ≡ s.family)
  validate_lem s request =
      settle s.family request s (validate s request) refl
        (judge s.family s.admission request.method request.protocol_version)
    where
      settle :
          (f : FamilyState) (request : ClientRequest) (s : Service Ident)
          (x : Service Ident × Result FamilyError (Unit {0}))
          → s.family ≡ f
          → Judged f request s x
          → ((is_ok x.1 ≡ true → Fits x.0.family request) × (is_ok x.1 ≡ false → x.0 ≡ s))
            × (is_unopened s.family ≡ false → x.0.family ≡ s.family)
      settle f request s (after, ok _) e (fits, stays) =
          ((λ _. fits, λ h. cc), λ u. stays (rw (sym e) u) ∙ sym e)
      settle f request s (after, err _) e same =
          ((λ h. cc, λ _. same), λ u. ap (λ (t : Service Ident). t.family) same)

  -- A request that validate accepts fits the family in which it leaves the connection: in the
  -- modern one it is no initialize and no method that only the legacy family has, in the legacy one
  -- no method that only the modern family has, and the version that it names, if any, is the
  -- family's.
  pub validate-Fits :
      (s : Service Ident) (request : ClientRequest)
      → is_ok (validate s request).1 ≡ true
      → Fits (validate s request).0.family request
  validate-Fits s request = (validate_lem s request).0.0

module _ {Ident : Type 0} where
  abbrev pub is_close : ServiceEvent Ident → Bool
  is_close (calls close_call) = true
  is_close _ = false

  -- The connection and its admission table agree that a session is a legacy one.
  abbrev pub Agrees : Service Ident → Type 0
  Agrees s = is_legacy s.family ≡ true → s.admission.state.legacy ≡ true

module _ {Ident : Type 0} ⦃e : Eq Ident⦄ (text_bytes : Ident → Option ℕ) where
  serve-keeps :
      (s : Service Ident) (x : ServiceEvent Ident)
      → is_unopened s.family ≡ false
      → (serve text_bytes s x).family ≡ s.family
  unfolding serve begin_request
  serve-keeps s (calls c) u = refl
  serve-keeps s (arrives id request) u =
      begun id (validate s request) ((validate_lem s request).1 u)
    where
      begun :
          (id : Ident) (x : Service Ident × Result FamilyError (Unit {0}))
          → x.0.family ≡ s.family
          → (claim_valid text_bytes id x).0.family ≡ s.family
      begun id (after, ok _) h = h
      begun id (after, err f) h = h

  -- A connection that has its family, modern or legacy, has it after any requests and any calls of
  -- the admission table.
  pub serve_all-keeps :
      (s : Service Ident) (xs : List (ServiceEvent Ident))
      → is_unopened s.family ≡ false
      → (serve_all text_bytes s xs).family ≡ s.family
  unfolding serve_all
  serve_all-keeps s [] u = refl
  serve_all-keeps s (x ∷ xs) u =
      let step = serve-keeps s x u in serve_all-keeps (serve text_bytes s x) xs (rw step u) ∙ step

  admit-legacy :
      (a : RequestAdmission Ident) (id : Ident) (fresh : RequestState)
      → (admit a id fresh).0.state.legacy ≡ a.state.legacy
  unfolding admit
  admit-legacy a id fresh = ground arith

  claim-legacy :
      (a : RequestAdmission Ident) (id : Ident)
      → (claim text_bytes a id).0.state.legacy ≡ a.state.legacy
  unfolding claim
  claim-legacy a id = elim (Option-cases (lookup id a.state.requests)) [
    | inl n ↦ ground (arith, n, admit-legacy a id claimed_request)
    | inr (r, p) ↦ ground (arith, p)
  ]

  call-legacy :
      (a : RequestAdmission Ident) (c : Call Ident)
      → is_close (calls c) ≡ false
      → a.state.legacy ≡ true
      → (call text_bytes a c).state.legacy ≡ true
  unfolding call reserve start_response finish_response cancel enter_legacy finish_handler
  call-legacy a (reserve_call id) n h = elim (Option-cases (lookup id a.state.requests)) [
    | inl p ↦ ground (arith, p, admit-legacy a id default_request)
    | inr (r, p) ↦ ground (arith, p)
  ]
  call-legacy a (claim_call id) n h = claim-legacy a id ∙ h
  call-legacy a (start_response_call id) n h = elim (Option-cases (lookup id a.state.requests)) [
    | inl p ↦ ground (arith, p)
    | inr (r, p) ↦ ground (arith, p)
  ]
  call-legacy a (finish_response_call id) n h = h
  call-legacy a (cancel_call id) n h = elim (Option-cases (lookup id a.state.requests)) [
    | inl p ↦ ground (arith, p)
    | inr (r, p) ↦ ground (arith, p)
  ]
  call-legacy a (finish_handler_call id) n h = elim (Option-cases (lookup id a.state.requests)) [
    | inl p ↦ ground (arith, p)
    | inr (r, p) ↦ ground (arith, p)
  ]
  call-legacy a enter_legacy_call n h = refl
  call-legacy a close_call n h = cc

  agree :
      (f : FamilyState) (a : RequestAdmission Ident) (m : Method) (v : Option ProtocolVersion)
      → Agrees (record { family = f; admission = a })
      → Agrees
          (validate
            (record { family = f; admission = a })
            (record { method = m; protocol_version = v })).0
  unfolding validate expected_version validate_family_method enter_legacy
  agree unopened a m v h = ground arith
  agree modern a m v h = ground arith
  agree legacy a m v h = ground arith

  pub serve-Agrees :
      (s : Service Ident) (x : ServiceEvent Ident)
      → is_close x ≡ false
      → Agrees s
      → Agrees (serve text_bytes s x)
  unfolding serve begin_request
  serve-Agrees s (calls c) n h = λ l. call-legacy s.admission c n (h l)
  serve-Agrees s (arrives id request) n h =
      begun (validate s request)
        (agree s.family s.admission request.method request.protocol_version h)
    where
      begun :
          (x : Service Ident × Result FamilyError (Unit {0}))
          → Agrees x.0
          → Agrees (claim_valid text_bytes id x).0
      begun (after, ok _) k = λ l. claim-legacy after.admission id ∙ k l
      begun (after, err f) k = k

  pub serve_all-Agrees :
      (s : Service Ident) (xs : List (ServiceEvent Ident))
      → All (λ x. is_close x ≡ false) xs
      → Agrees s
      → Agrees (serve_all text_bytes s xs)
  unfolding serve_all
  serve_all-Agrees s [] n h = h
  serve_all-Agrees s (x ∷ xs) (p, ps) h =
      serve_all-Agrees (serve text_bytes s x) xs ps (serve-Agrees s x p h)
