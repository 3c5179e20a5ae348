-- ===== src/Mcp/Family/Remembers.antt =====
-- The ids of begun requests on the record of a connection of the legacy family.
use quarters.Prelude.{
  ℕ, ◌≡◌, refl, sym, subst, ◌≢◌, ◌⊎◌, inl, inr, true, false, Option, List, [], ◌∷◌, arith,
  Option-cases, is_some, All, Eq, ==-refl, nat_eq, bytes_eq, member, lookup, lookup-insert, Result,
  ok, err, is_ok,
}
use quarters.Mcp.Admission.{
  RequestAdmission, admit, reserve, claim, claimed_request, running, ErrorData, enter_legacy, Call,
  claim_call, enter_legacy_call, call, new_admission,
}
use quarters.Mcp.Admission.Invariant.{IsValid, call-IsValid, IsValid-empty}
use quarters.Mcp.Admission.Session.{IsUsed, is_open, call-IsUsed, reserve_used}
use quarters.Mcp.Family.{
  ProtocolVersion, FamilyState, unopened, modern, legacy, Method, ClientRequest, FamilyError,
  is_legacy, expected_version, validate_family_method, Service, not_admitted, validate, claim_valid,
  begin_request, ServiceEvent, arrives, calls, serve, serve_all,
}
use quarters.Mcp.Family.Disjoint.{is_close, serve-Agrees, serve_all-Agrees}

abbrev pub new_service : {Ident : Type 0} → Service Ident
new_service = record { family = unopened; admission = new_admission }

module _ {Ident : Type 0} ⦃e : Eq Ident⦄ where
  validated :
      (f : FamilyState) (a : RequestAdmission Ident) (m : Method) (v : Option ProtocolVersion)
      → ((validate
            (record { family = f; admission = a })
            (record { method = m; protocol_version = v })).0.admission
          ≡ a)
        ⊎ ((validate
              (record { family = f; admission = a })
              (record { method = m; protocol_version = v })).0.admission
            ≡ enter_legacy a)
  unfolding validate expected_version validate_family_method
  validated unopened a m v = ground arith
  validated modern a m v = ground arith
  validated legacy a m v = ground arith

module _ {Ident : Type 0} ⦃e : Eq Ident⦄ (text_bytes : Ident → Option ℕ) where
  -- A property of the table that the calls keep, other than that of closing it, is kept by what arrives
  -- as well.
  serve-stays :
      (P : RequestAdmission Ident → Type 0)
      → ((a : RequestAdmission Ident) (c : Call Ident)
          → is_open c ≡ true
          → P a
          → P (call text_bytes a c))
      → (s : Service Ident) (x : ServiceEvent Ident) → is_close x ≡ false
      → P s.admission
      → P (serve text_bytes s x).admission
  unfolding serve begin_request call
  serve-stays P step s (calls c) n p = step s.admission c (opened c n) p
    where
      opened : (c : Call Ident) → is_close (calls c) ≡ false → is_open c ≡ true
      opened c n = ground arith
  serve-stays P step s (arrives id request) n p =
      claimed (validate s request)
        (elim (validated s.family s.admission request.method request.protocol_version) [
          | inl same ↦ subst P (sym same) p
          | inr entered ↦ subst P (sym entered) (step s.admission enter_legacy_call refl p)
        ])
    where
      claimed :
          (x : Service Ident × Result FamilyError (Unit {0}))
          → P x.0.admission
          → P (claim_valid text_bytes id x).0.admission
      claimed (after, ok _) q = step after.admission (claim_call id) refl q
      claimed (after, err f) q = q

  serve_all-stays :
      (P : RequestAdmission Ident → Type 0)
      → ((a : RequestAdmission Ident) (c : Call Ident)
          → is_open c ≡ true
          → P a
          → P (call text_bytes a c))
      → (s : Service Ident) (xs : List (ServiceEvent Ident)) → All (λ x. is_close x ≡ false) xs
      → P s.admission
      → P (serve_all text_bytes s xs).admission
  unfolding serve_all
  serve_all-stays P step s [] n p = p
  serve_all-stays P step s (x ∷ xs) (n, ns) p =
      serve_all-stays P step (serve text_bytes s x) xs ns (serve-stays P step s x n p)

  claim_in_flight :
      (a : RequestAdmission Ident) (id : Ident)
      → is_ok (claim text_bytes a id).1 ≡ true
      → is_some (lookup id (claim text_bytes a id).0.state.requests) ≡ true
  unfolding claim admit
  claim_in_flight a id h = elim (Option-cases (lookup id a.state.requests)) [
    | inl n ↦ ground (arith, n, ==-refl id, lookup-insert id id claimed_request a.state.requests)
    | inr (r, p) ↦
        ground (
          arith,
          p,
          ==-refl id,
          lookup-insert id id (record r { phase = running }) a.state.requests,
        )
  ]

  accepted :
      (o : Result ErrorData Ident)
      → is_ok {E = FamilyError} (elim o [ ok guard ↦ ok guard | err d ↦ err (not_admitted d) ])
        ≡ true
      → is_ok o ≡ true
  accepted (ok guard) h = refl
  accepted (err d) h = cc

  begun_in_flight :
      (s : Service Ident) (id : Ident) (request : ClientRequest)
      → is_ok (begin_request text_bytes s id request).1 ≡ true
      → is_some (lookup id (serve text_bytes s (arrives id request)).admission.state.requests)
        ≡ true
  unfolding begin_request serve
  begun_in_flight s id request h = begun (validate s request) h
    where
      begun :
          (x : Service Ident × Result FamilyError (Unit {0}))
          → is_ok (claim_valid text_bytes id x).1 ≡ true
          → is_some (lookup id (claim_valid text_bytes id x).0.admission.state.requests) ≡ true
      begun (after, ok _) k =
          claim_in_flight after.admission id (accepted (claim text_bytes after.admission id).1 k)
      begun (after, err f) k = cc

  -- On a new connection that is not closed, when a request has begun and the connection is then of
  -- the legacy family, its id stays on record in the table, whatever arrives and whatever the
  -- transport and the handlers call, and reserve refuses the id.
  pub serve_all-remembers :
      (xs ys : List (ServiceEvent Ident)) (id : Ident) (request : ClientRequest)
      → let before = serve_all text_bytes new_service xs in
        let begun = serve text_bytes before (arrives id request) in
        let after = (serve_all text_bytes begun ys).admission in
        All (λ x. is_close x ≡ false) xs
        → All (λ x. is_close x ≡ false) ys
        → is_ok (begin_request text_bytes before id request).1 ≡ true
        → is_legacy begun.family ≡ true
        → (after.state.legacy ≡ true)
          × (member id after.state.seen ≡ true)
          × ((reserve text_bytes after id).1 ≢ ok tt)
  serve_all-remembers xs ys id request nx ny h l =
      let before = serve_all text_bytes new_service xs in
      let begun = serve text_bytes before (arrives id request) in
      let after = (serve_all text_bytes begun ys).admission in
      let valid : IsValid begun.admission.state =
        serve-stays (λ a. IsValid a.state) (λ a c o v. call-IsValid text_bytes a c v) before
          (arrives id request) refl
          (serve_all-stays (λ a. IsValid a.state) (λ a c o v. call-IsValid text_bytes a c v)
            new_service xs nx IsValid-empty) in
      let legacy_table =
        serve-Agrees text_bytes before (arrives id request) refl
          (serve_all-Agrees text_bytes new_service xs nx (λ u. cc)) l in
      let used : IsUsed id after =
        serve_all-stays (IsUsed id) (λ a c o u. call-IsUsed text_bytes a id c o u) begun ys ny
          (legacy_table, valid.recorded legacy_table id (begun_in_flight before id request h)) in
      (used.0, used.1, reserve_used text_bytes after id used)
