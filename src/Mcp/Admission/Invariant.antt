-- ===== src/Mcp/Admission/Invariant.antt =====
-- The bounds of the table of requests, and what ties it to the ids that a session has used.
use quarters.Prelude.{
  ℕ, ◌≤◌, ◌<◌, ◌≡◌, refl, ap, inl, inr, Bool, true, false, ◌&&◌, ◌||◌, not, Option, none, some,
  List, [], ◌∷◌, arith, leb, if◌then◌else◌, Option-cases, is_some, if-split, length, Eq, nat_eq,
  bytes_eq, member, lookup, remove, insert, keys, lookup-remove, lookup-insert, length-remove,
  member-keys, Distinct, add, extend, member-add, Distinct-add, length-add, member-extend,
  Distinct-extend, length-extend, extend_absorbs, length-keys, Distinct-remove, Distinct-insert,
  length-insert_absent, length-insert_present,
}
use quarters.Mcp.Admission.{
  max_in_flight_requests, max_session_request_ids, RequestState, is_id_too_long, is_reserved,
  is_idle_phase, is_response_started, response_started, handler_done, AdmissionState,
  RequestAdmission, default_request, claimed_request, admit, reserve, claim, start_response,
  finish_response, close, cancel, enter_legacy, finish_handler, Call, reserve_call, claim_call,
  start_response_call, finish_response_call, cancel_call, finish_handler_call, enter_legacy_call,
  close_call, call, run, new_admission,
}

-- At most 32 requests in flight and 8192 ids on record, none twice. A modern session records no id,
-- and in a legacy session every request in flight is on record.
pub record IsValid {Ident : Type 0} ⦃e : Eq Ident⦄ (s : AdmissionState Ident) : Type 0 where
  pub in_flight : length s.requests ≤ max_in_flight_requests
  pub distinct_requests : Distinct (keys s.requests)
  pub session : length s.seen ≤ max_session_request_ids
  pub distinct_seen : Distinct s.seen
  pub unrecorded : s.legacy ≡ false → s.seen ≡ []
  pub recorded :
      s.legacy ≡ true
      → (id : Ident) → is_some (lookup id s.requests) ≡ true
      → member id s.seen ≡ true

module _ {Ident : Type 0} ⦃e : Eq Ident⦄ where
  abbrev IsSound : RequestAdmission Ident → Type 0
  IsSound a = IsValid a.state

  abbrev Keeps {ℓ} : {A : Type ℓ} → RequestAdmission Ident × A → Type 0
  Keeps r = IsSound r.0

  -- A new value for an id in flight keeps the invariant.
  replace-IsValid :
      (s : AdmissionState Ident) (id : Ident) (old new : RequestState)
      → lookup id s.requests ≡ some old
      → IsValid s
      → IsValid (record s { requests = insert id new s.requests })
  replace-IsValid s id old new h v = record {
    in_flight = omega (arith, v.in_flight, length-insert_present id new old s.requests h);
    distinct_requests = Distinct-insert id new s.requests v.distinct_requests;
    session = v.session;
    distinct_seen = v.distinct_seen;
    unrecorded = v.unrecorded;
    recorded = λ l j p.
        ground (arith, lookup-insert id j new s.requests, e.beq_iff id j, v.recorded l j, h);
  }

  remove-IsValid :
      (s : AdmissionState Ident) (id : Ident)
      → IsValid s
      → IsValid (record s { requests = remove id s.requests })
  remove-IsValid s id v = record {
    in_flight = omega (arith, v.in_flight, length-remove id s.requests);
    distinct_requests = Distinct-remove id s.requests v.distinct_requests;
    session = v.session;
    distinct_seen = v.distinct_seen;
    unrecorded = v.unrecorded;
    recorded = λ l j p. ground (arith, lookup-remove id j s.requests, v.recorded l j);
  }

  note-IsValid :
      (s : AdmissionState Ident) (id : Ident)
      → s.legacy ≡ true
      → length s.seen < max_session_request_ids
      → IsValid s
      → IsValid (record s { seen = add id s.seen })
  note-IsValid s id l short v = record {
    in_flight = v.in_flight;
    distinct_requests = v.distinct_requests;
    session = omega (arith, length-add id s.seen);
    distinct_seen = Distinct-add id s.seen v.distinct_seen;
    unrecorded = λ m. cc (l, m);
    recorded = λ m j p. ground (arith, member-add id j s.seen, v.recorded m j);
  }

  insert-IsValid :
      (s : AdmissionState Ident) (id : Ident) (fresh : RequestState)
      → lookup id s.requests ≡ none
      → length s.requests < max_in_flight_requests
      → (s.legacy ≡ true → member id s.seen ≡ true)
      → IsValid s
      → IsValid (record s { requests = insert id fresh s.requests })
  insert-IsValid s id fresh h room noted v = record {
    in_flight = omega (arith, length-insert_absent id fresh s.requests h);
    distinct_requests = Distinct-insert id fresh s.requests v.distinct_requests;
    session = v.session;
    distinct_seen = v.distinct_seen;
    unrecorded = v.unrecorded;
    recorded = λ l j p.
        ground
          (arith, lookup-insert id j fresh s.requests, e.beq_iff id j, v.recorded l j, noted l);
  }

  noted-IsValid :
      (s : AdmissionState Ident) (id : Ident) (b : Bool)
      → s.legacy ≡ b
      → (b && leb max_session_request_ids (length s.seen)) ≡ false
      → IsValid s
      → IsValid (record s { seen = if b then add id s.seen else s.seen })
  noted-IsValid s id true l short v = note-IsValid s id l (ground arith) v
  noted-IsValid s id false l short v = v

  admit-IsValid :
      (a : RequestAdmission Ident) (id : Ident) (fresh : RequestState)
      → lookup id a.state.requests ≡ none
      → IsValid a.state
      → IsValid (admit a id fresh).0.state
  unfolding admit
  admit-IsValid a id fresh h v =
      if-split Keeps (a.state.legacy && leb max_session_request_ids (length a.state.seen)) (λ _. v)
        λ short.
          let noted = noted-IsValid a.state id a.state.legacy refl short v in
          if-split Keeps (leb max_in_flight_requests (length a.state.requests)) (λ _. noted)
            λ room.
              insert-IsValid _ id fresh h (ground arith)
                (λ l. rw l (ground (arith, member-add id id a.state.seen, e.beq_iff id id))) noted

  reserve-IsValid :
      (text_bytes : Ident → Option ℕ) (a : RequestAdmission Ident) (id : Ident)
      → IsValid a.state
      → IsValid (reserve text_bytes a id).0.state
  unfolding reserve
  reserve-IsValid text_bytes a id v =
      if-split Keeps (is_id_too_long (text_bytes id)) (λ _. v)
        λ _.
          if-split Keeps (a.state.legacy && member id a.state.seen) (λ _. v)
            λ _. elim (Option-cases (lookup id a.state.requests)) [
              | inl h ↦ rw h (admit-IsValid a id default_request h v)
              | inr (r, h) ↦ rw h v
            ]

  claim-IsValid :
      (text_bytes : Ident → Option ℕ) (a : RequestAdmission Ident) (id : Ident)
      → IsValid a.state
      → IsValid (claim text_bytes a id).0.state
  unfolding claim
  claim-IsValid text_bytes a id v = elim (Option-cases (lookup id a.state.requests)) [
    | inl h ↦
        rw (h, claim)
          (if-split Keeps (is_id_too_long (text_bytes id)) (λ _. v)
            λ _.
              if-split Keeps (a.state.legacy && member id a.state.seen) (λ _. v)
                λ _. admit-IsValid a id claimed_request h v)
    | inr (r, h) ↦
        rw (h, claim)
          (if-split Keeps (is_reserved r.phase) (λ _. replace-IsValid a.state id r _ h v) (λ _. v))
  ]

  start_response-IsValid :
      (a : RequestAdmission Ident) (id : Ident)
      → IsValid a.state
      → IsValid (start_response a id).state
  unfolding start_response
  start_response-IsValid a id v = elim (Option-cases (lookup id a.state.requests)) [
    | inl h ↦ rw (h, start_response) v
    | inr (r, h) ↦ rw (h, start_response) (replace-IsValid a.state id r _ h v)
  ]

  cancel-IsValid :
      (a : RequestAdmission Ident) (id : Ident) → IsValid a.state → IsValid (cancel a id).state
  unfolding cancel
  cancel-IsValid a id v = elim (Option-cases (lookup id a.state.requests)) [
    | inl h ↦ rw (h, cancel) v
    | inr (r, h) ↦
        rw (h, cancel)
          (let marked = replace-IsValid a.state id r (record r { cancelled = true }) h v in
            if-split IsSound (is_idle_phase r.phase) (λ _. remove-IsValid _ id marked)
              (λ _. marked))
  ]

  finish_handler-IsValid :
      (a : RequestAdmission Ident) (id : Ident)
      → IsValid a.state
      → IsValid (finish_handler a id).state
  unfolding finish_handler
  finish_handler-IsValid a id v = elim (Option-cases (lookup id a.state.requests)) [
    | inl h ↦ rw (h, finish_handler) v
    | inr (r, h) ↦
        rw (h, finish_handler)
          (let started = is_response_started r.phase in
            let phase = if started then response_started else handler_done in
            let marked = replace-IsValid a.state id r (record r { phase = phase }) h v in
            if-split IsSound (not r.transport_owned || (r.cancelled && not started))
              (λ _. remove-IsValid _ id marked) (λ _. marked))
  ]

  pub IsValid-empty : IsValid {Ident = Ident} (record { requests = []; seen = []; legacy = false })
  unfolding keys
  IsValid-empty = record {
    in_flight = omega arith;
    distinct_requests = tt;
    session = omega arith;
    distinct_seen = tt;
    unrecorded = λ _. refl;
    recorded = λ l j p. cc;
  }

  -- Entering the legacy family records the requests in flight; a second time it records nothing.
  seen-length :
      (s : AdmissionState Ident) (b : Bool)
      → s.legacy ≡ b
      → IsValid s
      → length (extend s.seen (keys s.requests)) ≤ max_session_request_ids
  seen-length s true l v =
      rw
        (extend_absorbs s.seen (keys s.requests)
          (λ j m. v.recorded l j (ground (arith, member-keys j s.requests))))
        v.session
  seen-length s false l v = omega (
    arith,
    length-extend s.seen (keys s.requests),
    length-keys s.requests,
    v.in_flight,
    ap length (v.unrecorded l),
  )

  enter_legacy-IsValid :
      (a : RequestAdmission Ident) → IsValid a.state → IsValid (enter_legacy a).state
  unfolding enter_legacy
  enter_legacy-IsValid a v = record {
    in_flight = v.in_flight;
    distinct_requests = v.distinct_requests;
    session = seen-length a.state a.state.legacy refl v;
    distinct_seen = Distinct-extend a.state.seen (keys a.state.requests) v.distinct_seen;
    unrecorded = λ m. cc;
    recorded = λ l j p. ground (
      arith,
      member-extend j a.state.seen (keys a.state.requests),
      member-keys j a.state.requests,
    );
  }

module _ {Ident : Type 0} ⦃e : Eq Ident⦄ (text_bytes : Ident → Option ℕ) where
  pub call-IsValid :
      (a : RequestAdmission Ident) (c : Call Ident)
      → IsValid a.state
      → IsValid (call text_bytes a c).state
  unfolding call finish_response close
  call-IsValid a (reserve_call id) v = reserve-IsValid text_bytes a id v
  call-IsValid a (claim_call id) v = claim-IsValid text_bytes a id v
  call-IsValid a (start_response_call id) v = start_response-IsValid a id v
  call-IsValid a (finish_response_call id) v = remove-IsValid a.state id v
  call-IsValid a (cancel_call id) v = cancel-IsValid a id v
  call-IsValid a (finish_handler_call id) v = finish_handler-IsValid a id v
  call-IsValid a enter_legacy_call v = enter_legacy-IsValid a v
  call-IsValid a close_call v = IsValid-empty

  pub run-IsValid_from :
      (cs : List (Call Ident)) (a : RequestAdmission Ident)
      → IsValid a.state
      → IsValid (run text_bytes a cs).state
  unfolding run
  run-IsValid_from [] a v = v
  run-IsValid_from (c ∷ cs) a v = run-IsValid_from cs (call text_bytes a c) (call-IsValid a c v)

  -- After any sequence of calls of the methods of a new RequestAdmission, with any ids, at most 32
  -- requests are in flight and at most 8192 ids are on record, none of them twice; a session that
  -- is not legacy has no id on record, and in a legacy session every request in flight is on
  -- record.
  pub run-IsValid : (cs : List (Call Ident)) → IsValid (run text_bytes new_admission cs).state
  run-IsValid cs = run-IsValid_from cs new_admission IsValid-empty
