-- ===== src/Mcp/Transport/Delivery.antt =====
-- What prepare_message makes of a request, and the work that a turn of the loop of receive leaves.
use quarters.Prelude.{
  ℕ, ◌+◌, ◌*◌, ◌≤◌, ◌<◌, ◌≡◌, refl, ◌⊎◌, inl, inr, true, Option, none, some, List, [], ◌∷◌, ◌++◌,
  arith, if◌then◌else◌, is_some, if-split, length, Eq, ==-refl, nat_eq, bytes_eq, member, lookup,
  lookup-insert, Result, ok, err,
}
use quarters.Mcp.Admission.{
  RequestState, RequestAdmission, AdmissionFailure, duplicate, cancelled_in_flight, capacity,
  session_limit, id_too_long, default_request, admit, reserve,
}
use quarters.Mcp.Family.{FamilyState, ClientRequest}
use quarters.Mcp.Transport.{
  Meta, Message, request_message, TransportError, PendingError, Preparation, deliver, ignore,
  close_transport, reject, await_release, AwaitingRelease, modern_metadata_error, reserved_message,
  checked_message, prepare_message, admitted_message, try_admit, InboundFrame, message_frame,
  protocol_error, ignored_notification, parse_error_frame, oversized, Transport, Turn, returns,
  goes_on, settle, resettle, read_frame, send_error, admit_waiting, receive_turn,
}

abbrev flag : {A : Type 0} → Option A → ℕ
flag none = 0
flag (some a) = 1

module _ {Ident : Type 0} ⦃e : Eq Ident⦄ where
  -- What may come of a request.
  abbrev pub Handled :
      RequestAdmission Ident
      → Message Ident
      → Ident
      → RequestAdmission Ident × Preparation Ident
      → Type 0
  Handled a message id (after, deliver m) =
      (m ≡ message)
      × ((lookup id a.state.requests ≡ none)
          × (lookup id after.state.requests ≡ some default_request))
  Handled a message id (after, ignore) = ⊥
  Handled a message id (after, close_transport) =
      (after ≡ a)
      × ((is_some (lookup id a.state.requests) ≡ true) ⊎ (member id a.state.seen ≡ true))
  Handled a message id (after, reject p) = p.id ≡ some id
  Handled a message id (after, await_release m i) =
      (m ≡ message)
      × ((i ≡ id)
          × ((after ≡ a)
              × ((r : RequestState) × (lookup id a.state.requests ≡ some r)
                  × (r.cancelled ≡ true))))

  -- What `reserve` says of the table.
  abbrev pub Reserved :
      RequestAdmission Ident
      → Ident
      → RequestAdmission Ident × Result AdmissionFailure (Unit {0})
      → Type 0
  Reserved a id (after, ok _) =
      (lookup id a.state.requests ≡ none) × (lookup id after.state.requests ≡ some default_request)
  Reserved a id (after, err duplicate) =
      (after ≡ a)
      × ((is_some (lookup id a.state.requests) ≡ true) ⊎ (member id a.state.seen ≡ true))
  Reserved a id (after, err cancelled_in_flight) =
      (after ≡ a)
      × ((r : RequestState) × (lookup id a.state.requests ≡ some r) × (r.cancelled ≡ true))
  Reserved a id (after, err _) = Unit

  pub reserve_lem :
      (text_bytes : Ident → Option ℕ) (a : RequestAdmission Ident) (id : Ident)
      → Reserved a id (reserve text_bytes a id)
  unfolding reserve admit
  reserve_lem text_bytes a id =
      ground (arith, lookup-insert id id default_request a.state.requests, ==-refl id)

  handled :
      (a : RequestAdmission Ident) (message : Message Ident) (id : Ident)
      (x : RequestAdmission Ident × Result AdmissionFailure (Unit {0}))
      → Reserved a id x
      → Handled a message id (reserved_message message id x)
  handled a message id (after, ok _) h = (refl, h)
  handled a message id (after, err duplicate) h = h
  handled a message id (after, err cancelled_in_flight) h = (refl, (refl, h))
  handled a message id (after, err capacity) h = refl
  handled a message id (after, err session_limit) h = refl
  handled a message id (after, err id_too_long) h = refl

  -- A request that prepare_message reads is never ignored: it is delivered, and then its id was
  -- free and is now in flight; or it is rejected by an error that carries its id; or it closes the
  -- transport, and then its id was in flight or on record; or it waits, unchanged, for its id, and
  -- then a cancelled request holds the id.
  pub prepare_message-Handled :
      (text_bytes : Ident → Option ℕ) (family : FamilyState) (a : RequestAdmission Ident)
      (id : Ident) (request : ClientRequest) (meta : Meta)
      → Handled a
          (request_message id request meta)
          id
          (prepare_message text_bytes family a (request_message id request meta))
  unfolding prepare_message
  prepare_message-Handled text_bytes family a id request meta =
      checked (request_message id request meta) (modern_metadata_error family request meta)
        (reserve text_bytes a id) (reserve_lem text_bytes a id)
    where
      checked :
          (message : Message Ident) (x : Option TransportError)
          (r : RequestAdmission Ident × Result AdmissionFailure (Unit {0}))
          → Reserved a id r
          → Handled a message id (checked_message x a message id r)
      checked message none r h = handled a message id r h
      checked message (some error) r h = refl

  -- The loop never holds a waiting request and an unsent error at once.
  abbrev pub IsSingle : Transport Ident → Type 0
  IsSingle t = (t.awaiting_release ≡ none) ⊎ (t.pending_error ≡ none)

  -- What the loop still has to do.
  abbrev pub work : Transport Ident → ℕ
  work t = 3 * length t.inbox + 2 * flag t.awaiting_release + flag t.pending_error

  -- The waiting request has waited long enough.
  abbrev pub IsDue : ℕ → Transport Ident → Type 0
  IsDue now t = (w : AwaitingRelease Ident) → t.awaiting_release ≡ some w → w.deadline ≤ now

  abbrev pub Goes : Turn Ident → Type 0
  Goes (returns _) = ⊥
  Goes goes_on = Unit

  -- A settled preparation on a loop that holds nothing.
  settle_lem :
      (now : ℕ) (t : Transport Ident) (p : Preparation Ident)
      → t.awaiting_release ≡ none
      → t.pending_error ≡ none
      → IsSingle (settle now t p).0 × (work (settle now t p).0 ≤ work t + 2)
  settle_lem now t (deliver m) w p = (inl w, omega arith)
  settle_lem now t ignore w p = (inl w, omega arith)
  settle_lem now t close_transport w p = (inl w, omega arith)
  settle_lem now t (reject x) w p = (inl w, ground (arith, w, p))
  settle_lem now t (await_release m i) w p = (inr p, ground (arith, w, p))

  resettle_lem :
      (now : ℕ) (t : Transport Ident) (x : AwaitingRelease Ident) (o : Option (Preparation Ident))
      → t.awaiting_release ≡ none
      → t.pending_error ≡ none
      → IsSingle (resettle now t x o).0
        × ((is_some o ≡ true) → work (resettle now t x o).0 ≤ work t + 1)
  resettle_lem now t x none w p = (inr p, λ h. cc)
  resettle_lem now t x (some (deliver m)) w p = (inl w, λ h. omega arith)
  resettle_lem now t x (some ignore) w p = (inl w, λ h. omega arith)
  resettle_lem now t x (some close_transport) w p = (inl w, λ h. omega arith)
  resettle_lem now t x (some (reject y)) w p = (inl w, λ h. ground (arith, w, p))
  resettle_lem now t x (some (await_release m i)) w p = (inl w, λ h. omega arith)

  due_lem :
      (now : ℕ) (x : AwaitingRelease Ident)
      (r : RequestAdmission Ident × Result AdmissionFailure (Unit {0}))
      → x.deadline ≤ now
      → is_some (admitted_message now x r).1 ≡ true
  due_lem now x (a, ok _) h = refl
  due_lem now x (a, err cancelled_in_flight) h = ground arith
  due_lem now x (a, err duplicate) h = refl
  due_lem now x (a, err capacity) h = refl
  due_lem now x (a, err session_limit) h = refl
  due_lem now x (a, err id_too_long) h = refl

  abbrev Turned : ℕ → Transport Ident → Transport Ident × Turn Ident → Type 0
  Turned now t x = IsSingle x.0 × (Goes x.1 → IsDue now t → work x.0 < work t)

  frame_lem :
      (text_bytes : Ident → Option ℕ) (now : ℕ) (t : Transport Ident)
      (inbox : List (InboundFrame Ident))
      → t.inbox ≡ inbox
      → t.awaiting_release ≡ none
      → t.pending_error ≡ none
      → Turned now t (read_frame text_bytes now t inbox)
  frame_lem text_bytes now t [] i w p = (inl w, λ h. absurd h)
  frame_lem text_bytes now t (message_frame message ∷ rest) i w p =
      let (a, preparation) = prepare_message text_bytes t.family t.admission message in
      let (single, bound) =
        settle_lem now (record t { inbox = rest; admission = a }) preparation w p in
      (single, λ h d. ground (arith, bound, i))
  frame_lem text_bytes now t (protocol_error x id ∷ rest) i w p =
      (inl w, λ h d. ground (arith, i, w, p))
  frame_lem text_bytes now t (ignored_notification ∷ rest) i w p =
      (inl w, λ h d. ground (arith, i, w, p))
  frame_lem text_bytes now t (parse_error_frame ∷ rest) i w p =
      (inl w, λ h d. ground (arith, i, w, p))
  frame_lem text_bytes now t (oversized ∷ rest) i w p = (inl w, λ h. absurd h)

  waiting_lem :
      (now : ℕ) (t : Transport Ident) (x : AwaitingRelease Ident)
      (r : RequestAdmission Ident × Result AdmissionFailure (Unit {0}))
      → t.awaiting_release ≡ some x
      → t.pending_error ≡ none
      → let (admission, outcome) = admitted_message now x r in
        Turned now t
          (resettle now (record t { awaiting_release = none; admission = admission }) x outcome)
  waiting_lem now t x r w p =
      let (admission, outcome) = admitted_message now x r in
      let (single, bound) =
        resettle_lem now (record t { awaiting_release = none; admission = admission }) x outcome
          refl p in
      (single, λ h d. ground (arith, w, bound (due_lem now x r (d x w))))

  pending_lem :
      (now : ℕ) (t : Transport Ident) (x : PendingError Ident)
      → t.awaiting_release ≡ none
      → t.pending_error ≡ some x
      → Turned now t (
        record t { pending_error = none; errors = t.errors ++ (x ∷ []) },
        if x.terminal then returns none else goes_on,
      )
  pending_lem now t x w p = (inl w, λ h d. ground (arith, w, p))

  receive_turn-Turned :
      (text_bytes : Ident → Option ℕ) (now : ℕ) (t : Transport Ident)
      → IsSingle t
      → Turned now t (receive_turn text_bytes now t)
  unfolding receive_turn try_admit
  receive_turn-Turned text_bytes now t single =
      if-split (Turned now t) t.error_writer_failed (λ f. (single, λ h. absurd h))
        (λ f. waits t.awaiting_release refl single)
    where
      errs :
          (p : Option (PendingError Ident))
          → t.pending_error ≡ p
          → t.awaiting_release ≡ none
          → Turned now t (send_error text_bytes now t p)
      errs none p w = frame_lem text_bytes now t t.inbox refl w p
      errs (some x) p w = pending_lem now t x w p

      waits :
          (w : Option (AwaitingRelease Ident))
          → t.awaiting_release ≡ w
          → IsSingle t
          → Turned now t (admit_waiting text_bytes now t w)
      waits none w single = errs t.pending_error refl w
      waits (some x) w (inl n) = cc
      waits (some x) w (inr p) = waiting_lem now t x (reserve text_bytes t.admission x.id) w p

  pub receive_turn-IsSingle :
      (text_bytes : Ident → Option ℕ) (now : ℕ) (t : Transport Ident)
      → IsSingle t
      → IsSingle (receive_turn text_bytes now t).0
  receive_turn-IsSingle text_bytes now t single = (receive_turn-Turned text_bytes now t single).0

  -- A turn of the loop of receive that starts with at most one of a waiting request and an unsent
  -- error, and that goes on, has less work left, unless a request waits whose deadline is still to
  -- come.
  pub receive_turn-progress :
      (text_bytes : Ident → Option ℕ) (now : ℕ) (t : Transport Ident)
      → IsSingle t
      → Goes (receive_turn text_bytes now t).1
      → IsDue now t
      → work (receive_turn text_bytes now t).0 < work t
  receive_turn-progress text_bytes now t single g d =
      (receive_turn-Turned text_bytes now t single).1 g d
