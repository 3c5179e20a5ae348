-- ===== src/Mcp/Admission/Session.antt =====
-- Request ids over a session: the record of used ids, and the handler of an id.
use quarters.Prelude.{
  ℕ, ◌<◌, ◌≡◌, ◌≢◌, ◌↔◌, ◌⊎◌, inl, inr, Bool, true, false, not, Option, none, some, List, [], ◌∷◌,
  arith, if◌then◌else◌, Bool-cases, Option-cases, &&-true, length, all, Eq, ◌==◌, nat_eq, bytes_eq,
  member, lookup, insert, keys, lookup-remove, lookup-insert, member-add, member-extend, ok, err,
}
use quarters.Mcp.Admission.{
  max_in_flight_requests, max_session_request_ids, RequestState, is_id_too_long,
  is_response_started, RequestPhase, running, response_started, handler_done, RequestAdmission,
  duplicate_request_error, default_request, claimed_request, admit, reserve, claim, start_response,
  finish_response, cancel, enter_legacy, finish_handler, Call, reserve_call, claim_call,
  start_response_call, finish_response_call, cancel_call, finish_handler_call, enter_legacy_call,
  close_call, call, run,
}

-- No call ends the session.
abbrev pub is_open : {Ident : Type 0} → Call Ident → Bool
is_open close_call = false
is_open _ = true

module _ {Ident : Type 0} ⦃e : Eq Ident⦄ where
  -- A legacy session with `id` on record.
  abbrev pub IsUsed : Ident → RequestAdmission Ident → Type 0
  IsUsed id a = (a.state.legacy ≡ true) × (member id a.state.seen ≡ true)

  admit-IsUsed :
      (a : RequestAdmission Ident) (j id : Ident) (r : RequestState)
      → IsUsed id a
      → IsUsed id (admit a j r).0
  unfolding admit
  admit-IsUsed a j id r (l, m) = ground (arith, member-add j id a.state.seen)

  pub call-IsUsed :
      (text_bytes : Ident → Option ℕ) (a : RequestAdmission Ident) (id : Ident) (c : Call Ident)
      → is_open c ≡ true
      → IsUsed id a
      → IsUsed id (call text_bytes a c)
  unfolding call reserve claim start_response finish_response cancel enter_legacy finish_handler
  call-IsUsed text_bytes a id (reserve_call j) o u = ground (arith, member-add j id a.state.seen)
  call-IsUsed text_bytes a id (claim_call j) o u = ground (arith, member-add j id a.state.seen)
  call-IsUsed text_bytes a id (cancel_call j) o u = ground arith
  call-IsUsed text_bytes a id (finish_handler_call j) o u = ground arith
  call-IsUsed text_bytes a id enter_legacy_call o u =
      ground (arith, member-extend id a.state.seen (keys a.state.requests))
  call-IsUsed text_bytes a id close_call o u = cc
  call-IsUsed text_bytes a id _ o u = ground arith

  run-IsUsed :
      (text_bytes : Ident → Option ℕ) (cs : List (Call Ident)) (a : RequestAdmission Ident)
      (id : Ident)
      → all is_open cs ≡ true
      → IsUsed id a
      → IsUsed id (run text_bytes a cs)
  unfolding run
  run-IsUsed text_bytes [] a id o u = u
  run-IsUsed text_bytes (c ∷ cs) a id o u =
      let (first, others) = &&-true (is_open c) (all is_open cs) o in
      run-IsUsed text_bytes cs (call text_bytes a c) id others
        (call-IsUsed text_bytes a id c first u)

  pub reserve_used :
      (text_bytes : Ident → Option ℕ) (a : RequestAdmission Ident) (id : Ident)
      → IsUsed id a
      → (reserve text_bytes a id).1 ≢ ok tt
  unfolding reserve
  reserve_used text_bytes a id (l, m) = ground arith

  -- Once a legacy session has an id on record, then after any further calls that do not close the
  -- session reserve refuses that id.
  pub reserve_after_use :
      (text_bytes : Ident → Option ℕ) (a : RequestAdmission Ident) (id : Ident)
      (cs : List (Call Ident))
      → a.state.legacy ≡ true
      → member id a.state.seen ≡ true
      → all is_open cs ≡ true
      → (reserve text_bytes (run text_bytes a cs) id).1 ≢ ok tt
  reserve_after_use text_bytes a id cs l m o =
      reserve_used text_bytes (run text_bytes a cs) id (run-IsUsed text_bytes cs a id o (l, m))

  -- reserve succeeds exactly if the id is short enough, not on record in a legacy session, not in
  -- flight, and there is room in the session and among the requests in flight.
  pub reserve_iff :
      (text_bytes : Ident → Option ℕ) (a : RequestAdmission Ident) (id : Ident)
      → ((reserve text_bytes a id).1 ≡ ok tt) ↔ (
          (is_id_too_long (text_bytes id) ≡ false)
          × (lookup id a.state.requests ≡ none)
          × (length a.state.requests < max_in_flight_requests)
          × ((a.state.legacy ≡ false)
              ⊎ ((member id a.state.seen ≡ false)
                  × (length a.state.seen < max_session_request_ids))))
  unfolding reserve
  reserve_iff text_bytes a id = ground arith

abbrev pub is_working : RequestPhase → Bool
is_working running = true
is_working response_started = true
is_working _ = false

module _ {Ident : Type 0} ⦃e : Eq Ident⦄ where
  -- The call is not the end of the handler of `id` or of its response, and keeps the session open.
  abbrev pub leaves_handler : Ident → Call Ident → Bool
  leaves_handler id (finish_handler_call j) = not (j == id)
  leaves_handler id (finish_response_call j) = not (j == id)
  leaves_handler id close_call = false
  leaves_handler id _ = true

  -- The phase of `id` is that of a handler at work.
  abbrev working : Ident → RequestAdmission Ident → Bool
  working id a = elim (lookup id a.state.requests) [ none ↦ false | some r ↦ is_working r.phase ]

  admit-working :
      (a : RequestAdmission Ident) (id j : Ident) (r : RequestState)
      → j ≢ id
      → working id (admit a j r).0 ≡ working id a
  unfolding admit
  admit-working a id j r ne = ground (arith, e.beq_iff j id, lookup-insert j id r a.state.requests)

  admit-working_self :
      (a : RequestAdmission Ident) (id : Ident)
      → (admit a id claimed_request).1 ≡ ok tt
      → working id (admit a id claimed_request).0 ≡ true
  unfolding admit
  admit-working_self a id h =
      ground (arith, e.beq_iff id id, lookup-insert id id claimed_request a.state.requests)

  claim-working :
      (text_bytes : Ident → Option ℕ) (a : RequestAdmission Ident) (id : Ident)
      → (claim text_bytes a id).1 ≡ ok id
      → working id (claim text_bytes a id).0 ≡ true
  unfolding claim
  claim-working text_bytes a id h = elim (Option-cases (lookup id a.state.requests)) [
    | inl n ↦ ground (arith, n, admit-working_self a id)
    | inr (r, p) ↦ ground (
      arith,
      p,
      e.beq_iff id id,
      lookup-insert id id (record r { phase = running }) a.state.requests,
    )
  ]

  claim-working' :
      (text_bytes : Ident → Option ℕ) (a : RequestAdmission Ident) (id : Ident)
      → working id a ≡ true
      → claim text_bytes a id ≡ (a, err duplicate_request_error)
  unfolding claim
  claim-working' text_bytes a id h = ground arith

  call-working :
      (text_bytes : Ident → Option ℕ) (a : RequestAdmission Ident) (id : Ident) (c : Call Ident)
      → leaves_handler id c ≡ true
      → working id a ≡ true
      → working id (call text_bytes a c) ≡ true
  unfolding call reserve claim start_response finish_response cancel enter_legacy finish_handler
  call-working text_bytes a id (reserve_call j) o u = elim (Bool-cases (j == id)) [
    | inl same ↦ ground (arith, e.beq_iff j id)
    | inr other ↦ ground (arith, e.beq_iff j id, admit-working a id j default_request)
  ]
  call-working text_bytes a id (claim_call j) o u =
      elim (Option-cases (lookup j a.state.requests)) [
        | inl n ↦ ground (arith, n, e.beq_iff j id, admit-working a id j claimed_request)
        | inr (r, p) ↦ ground (
          arith,
          p,
          e.beq_iff j id,
          lookup-insert j id (record r { phase = running }) a.state.requests,
        )
      ]
  call-working text_bytes a id (cancel_call j) o u =
      elim (Option-cases (lookup j a.state.requests)) [
        | inl n ↦ ground (arith, n)
        | inr (r, p) ↦ ground (
          arith,
          p,
          e.beq_iff j id,
          lookup-insert j id (record r { cancelled = true }) a.state.requests,
          lookup-remove j id (insert j (record r { cancelled = true }) a.state.requests),
        )
      ]
  call-working text_bytes a id (finish_handler_call j) o u =
      elim (Option-cases (lookup j a.state.requests)) [
        | inl n ↦ ground (arith, n)
        | inr (r, p) ↦ ground (
          arith,
          p,
          e.beq_iff j id,
          lookup-insert j id
              (record r {
                phase = if is_response_started r.phase then response_started else handler_done;
              })
              a.state.requests,
          lookup-remove j id (
              insert j
                (record r {
                  phase = if is_response_started r.phase then response_started else handler_done;
                })
                a.state.requests),
        )
      ]
  call-working text_bytes a id (finish_response_call j) o u =
      ground (arith, e.beq_iff j id, lookup-remove j id a.state.requests)
  call-working text_bytes a id close_call o u = cc
  call-working text_bytes a id enter_legacy_call o u = u
  call-working text_bytes a id (start_response_call j) o u =
      elim (Option-cases (lookup j a.state.requests)) [
        | inl n ↦ ground (arith, n)
        | inr (r, p) ↦ ground (
          arith,
          p,
          e.beq_iff j id,
          lookup-insert j id (record r { phase = response_started }) a.state.requests,
        )
      ]

  run-working :
      (text_bytes : Ident → Option ℕ) (cs : List (Call Ident)) (a : RequestAdmission Ident)
      (id : Ident)
      → all (leaves_handler id) cs ≡ true
      → working id a ≡ true
      → working id (run text_bytes a cs) ≡ true
  unfolding run
  run-working text_bytes [] a id o u = u
  run-working text_bytes (c ∷ cs) a id o u =
      let (first, others) = &&-true (leaves_handler id c) (all (leaves_handler id) cs) o in
      run-working text_bytes cs (call text_bytes a c) id others
        (call-working text_bytes a id c first u)

  -- After a claim that succeeds, and any calls that end neither its handler, nor its response, nor
  -- the session, every further claim of the id is refused as a duplicate and changes nothing.
  pub claim_after_claim :
      (text_bytes : Ident → Option ℕ) (a : RequestAdmission Ident) (id : Ident)
      (cs : List (Call Ident))
      → (claim text_bytes a id).1 ≡ ok id
      → all (leaves_handler id) cs ≡ true
      → claim text_bytes (run text_bytes (claim text_bytes a id).0 cs) id
        ≡ (run text_bytes (claim text_bytes a id).0 cs, err duplicate_request_error)
  claim_after_claim text_bytes a id cs h o =
      claim-working' text_bytes (run text_bytes (claim text_bytes a id).0 cs) id
        (run-working text_bytes cs (claim text_bytes a id).0 id o (claim-working text_bytes a id h))
