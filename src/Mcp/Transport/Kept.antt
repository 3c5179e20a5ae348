-- ===== src/Mcp/Transport/Kept.antt =====
-- What becomes, in a turn of the loop of receive, of the request at hand and of the errors.
use quarters.Prelude.{
  ℕ, ◌≤◌, ◌≡◌, refl, sym, ap, ◌⊎◌, inl, inr, true, Option, none, some, List, [], ◌∷◌, ◌++◌, arith,
  ltb, is_some, if-split, length, append-nil, Eq, nat_eq, bytes_eq, member, lookup, Result, ok, err,
}
use quarters.Mcp.Admission.{
  RequestAdmission, AdmissionFailure, duplicate, cancelled_in_flight, capacity, session_limit,
  id_too_long, reserve,
}
use quarters.Mcp.Transport.{
  Message, request_message, PendingError, Preparation, deliver, ignore, close_transport, reject,
  await_release, AwaitingRelease, prepare_message, admitted_message, try_admit, InboundFrame,
  message_frame, protocol_error, ignored_notification, parse_error_frame, oversized, Transport,
  Turn, returns, settle, resettle, read_frame, send_error, admit_waiting, receive_turn,
}
use quarters.Mcp.Transport.Delivery.{
  Handled, prepare_message-Handled, Reserved, reserve_lem, IsSingle, receive_turn-IsSingle,
}

module _ {Ident : Type 0} ⦃e : Eq Ident⦄ where
  abbrev unsent : Option (PendingError Ident) → List (PendingError Ident)
  unsent none = []
  unsent (some x) = x ∷ []

  -- The errors that the writer task has been given, and behind them the one that it is still to get.
  abbrev pub told : Transport Ident → List (PendingError Ident)
  told t = t.errors ++ unsent t.pending_error

  -- The id is in flight or on record.
  abbrev pub IsTaken : RequestAdmission Ident → Ident → Type 0
  IsTaken a id = (is_some (lookup id a.state.requests) ≡ true) ⊎ (member id a.state.seen ≡ true)

  -- What a turn may make of a request: it is delivered; an error with its id is to be sent; it waits,
  -- unchanged; or the transport closes, since the writer of errors failed or the id is taken.
  abbrev pub Fate : Transport Ident → Ident → Message Ident → Transport Ident × Turn Ident → Type 0
  Fate t id message (after, turn) =
      (turn ≡ returns (some message))
      ⊎ (((x : PendingError Ident) × (after.pending_error ≡ some x) × (x.id ≡ some id))
          ⊎ (((w : AwaitingRelease Ident) × (after.awaiting_release ≡ some w)
                × (w.id ≡ id)
                × (w.message ≡ message))
              ⊎ ((turn ≡ returns none)
                  × ((t.error_writer_failed ≡ true) ⊎ IsTaken t.admission id))))

  -- The request whose turn it is: the one that waits, or else, when no error is to be sent, the next of
  -- the inbox.
  abbrev pub RequestKept :
      Transport Ident
      → Option (AwaitingRelease Ident)
      → Option (PendingError Ident)
      → List (InboundFrame Ident)
      → Transport Ident × Turn Ident
      → Type 0
  RequestKept t (some w) pending inbox x = Fate t w.id w.message x
  RequestKept t none none (message_frame (request_message id request meta) ∷ rest) x =
      Fate t id (request_message id request meta) x
  RequestKept t none _ _ x = Unit

  -- The errors are those of before, in their order, and at most one more.
  abbrev pub ErrorsKept : Transport Ident → Transport Ident → Type 0
  ErrorsKept t after =
      (new : List (PendingError Ident)) × (told after ≡ told t ++ new) × (length new ≤ 1)

  same_errors :
      (t after : Transport Ident)
      → after.errors ≡ t.errors
      → after.pending_error ≡ t.pending_error
      → ErrorsKept t after
  same_errors t after p q = ([], rw (p, q) (sym (append-nil (told t))), omega arith)

  new_error :
      (t after : Transport Ident) (x : PendingError Ident)
      → t.pending_error ≡ none
      → after.errors ≡ t.errors
      → after.pending_error ≡ some x
      → ErrorsKept t after
  new_error t after x n p q =
      (x ∷ [], rw (p, q, n) (ap (λ l. l ++ (x ∷ [])) (sym (append-nil t.errors))), omega arith)

  settle-ErrorsKept :
      (now : ℕ) (t : Transport Ident) (p : Preparation Ident)
      → t.pending_error ≡ none
      → ErrorsKept t (settle now t p).0
  settle-ErrorsKept now t (deliver m) n = same_errors t t refl refl
  settle-ErrorsKept now t ignore n = same_errors t t refl refl
  settle-ErrorsKept now t close_transport n = same_errors t t refl refl
  settle-ErrorsKept now t (reject x) n =
      new_error t (record t { pending_error = some x }) x n refl refl
  settle-ErrorsKept now t (await_release m i) n =
      same_errors t (settle now t (await_release m i)).0 refl refl

  resettle-ErrorsKept :
      (now : ℕ) (t : Transport Ident) (w : AwaitingRelease Ident) (o : Option (Preparation Ident))
      → t.pending_error ≡ none
      → ErrorsKept t (resettle now t w o).0
  resettle-ErrorsKept now t w none n = same_errors t (resettle now t w none).0 refl refl
  resettle-ErrorsKept now t w (some (deliver m)) n = same_errors t t refl refl
  resettle-ErrorsKept now t w (some ignore) n = same_errors t t refl refl
  resettle-ErrorsKept now t w (some close_transport) n = same_errors t t refl refl
  resettle-ErrorsKept now t w (some (reject x)) n =
      new_error t (record t { pending_error = some x }) x n refl refl
  resettle-ErrorsKept now t w (some (await_release m i)) n = same_errors t t refl refl

  -- Of a request that prepare_message has seen.
  settle-Fate :
      (now : ℕ) (t before : Transport Ident) (message : Message Ident) (id : Ident)
      (p : Preparation Ident)
      → Handled before.admission message id (t.admission, p)
      → Fate before id message (settle now t p)
  settle-Fate now t before message id (deliver m) h = inl (ap (λ x. returns (some x)) h.0)
  settle-Fate now t before message id ignore h = absurd h
  settle-Fate now t before message id close_transport h = inr (inr (inr (refl, inr h.1)))
  settle-Fate now t before message id (reject x) h = inr (inl (x, refl, h))
  settle-Fate now t before message id (await_release m i) h = inr (inr (inl (_, refl, h.1.0, h.0)))

  -- Of the request that waits.
  resettle-Fate :
      (now : ℕ) (t before : Transport Ident) (w : AwaitingRelease Ident)
      (r : RequestAdmission Ident × Result AdmissionFailure (Unit {0}))
      → Reserved before.admission w.id r
      → Fate before w.id w.message (resettle now t w (admitted_message now w r).1)
  resettle-Fate now t before w (a, ok _) h = inl refl
  resettle-Fate now t before w (a, err duplicate) h = inr (inr (inr (refl, inr h.1)))
  resettle-Fate now t before w (a, err cancelled_in_flight) h =
      if-split
        (λ (y : RequestAdmission Ident × Option (Preparation Ident)).
          Fate before w.id w.message (resettle now t w y.1))
        (ltb now w.deadline) (λ early. inr (inr (inl (w, refl, refl, refl))))
        (λ late. inr (inl (_, refl, refl)))
  resettle-Fate now t before w (a, err capacity) h = inr (inl (_, refl, refl))
  resettle-Fate now t before w (a, err session_limit) h = inr (inl (_, refl, refl))
  resettle-Fate now t before w (a, err id_too_long) h = inr (inl (_, refl, refl))

module _ {Ident : Type 0} ⦃e : Eq Ident⦄ (text_bytes : Ident → Option ℕ) where
  read_frame-Kept :
      (now : ℕ) (t : Transport Ident) (inbox : List (InboundFrame Ident))
      → t.pending_error ≡ none
      → ErrorsKept t (read_frame text_bytes now t inbox).0
        × RequestKept t none none inbox (read_frame text_bytes now t inbox)
  read_frame-Kept now t [] n = (same_errors t t refl refl, tt)
  read_frame-Kept now t (message_frame (request_message id request meta) ∷ rest) n =
      let (a, p) =
        prepare_message text_bytes t.family t.admission (request_message id request meta) in
      (
        settle-ErrorsKept now (record t { inbox = rest; admission = a }) p n,
        settle-Fate now (record t { inbox = rest; admission = a }) t
            (request_message id request meta) id p
            (prepare_message-Handled text_bytes t.family t.admission id request meta),
      )
  read_frame-Kept now t (message_frame message ∷ rest) n =
      let (a, p) = prepare_message text_bytes t.family t.admission message in
      (settle-ErrorsKept now (record t { inbox = rest; admission = a }) p n, tt)
  read_frame-Kept now t (protocol_error x id ∷ rest) n =
      (new_error t (read_frame text_bytes now t (protocol_error x id ∷ rest)).0 _ n refl refl, tt)
  read_frame-Kept now t (ignored_notification ∷ rest) n =
      (same_errors t (record t { inbox = rest }) refl refl, tt)
  read_frame-Kept now t (parse_error_frame ∷ rest) n =
      (new_error t (read_frame text_bytes now t (parse_error_frame ∷ rest)).0 _ n refl refl, tt)
  read_frame-Kept now t (oversized ∷ rest) n =
      (same_errors t (record t { inbox = rest }) refl refl, tt)

  failed-RequestKept :
      (t : Transport Ident) (w : Option (AwaitingRelease Ident)) (p : Option (PendingError Ident))
      (inbox : List (InboundFrame Ident))
      → t.error_writer_failed ≡ true
      → RequestKept t w p inbox (t, returns none)
  failed-RequestKept t (some w) p inbox f = inr (inr (inr (refl, inl f)))
  failed-RequestKept t none (some x) inbox f = tt
  failed-RequestKept t none none [] f = tt
  failed-RequestKept t none none (message_frame (request_message id request meta) ∷ rest) f =
      inr (inr (inr (refl, inl f)))
  failed-RequestKept t none none (message_frame _ ∷ rest) f = tt
  failed-RequestKept t none none (_ ∷ rest) f = tt

  send_error-Kept :
      (now : ℕ) (t : Transport Ident) (p : Option (PendingError Ident))
      → t.pending_error ≡ p
      → ErrorsKept t (send_error text_bytes now t p).0
        × RequestKept t none p t.inbox (send_error text_bytes now t p)
  send_error-Kept now t none n = read_frame-Kept now t t.inbox n
  send_error-Kept now t (some x) n = (([], rw n refl, omega arith), tt)

  admit_waiting-Kept :
      (now : ℕ) (t : Transport Ident) (w : Option (AwaitingRelease Ident))
      → t.awaiting_release ≡ w
      → IsSingle t
      → ErrorsKept t (admit_waiting text_bytes now t w).0
        × RequestKept t w t.pending_error t.inbox (admit_waiting text_bytes now t w)
  unfolding try_admit
  admit_waiting-Kept now t none n single = send_error-Kept now t t.pending_error refl
  admit_waiting-Kept now t (some w) n single =
      let (admission, outcome) = admitted_message now w (reserve text_bytes t.admission w.id) in
      let taken : Transport Ident = record t { awaiting_release = none; admission = admission } in
      (
        resettle-ErrorsKept now taken w outcome
            (elim single [ inl free ↦ absurd (cc (n, free)) | inr sent ↦ sent ]),
        resettle-Fate now taken t w (reserve text_bytes t.admission w.id)
            (reserve_lem text_bytes t.admission w.id),
      )

  -- A turn of the loop of receive that starts with at most one of a waiting request and an unsent error
  -- leaves at most one of them. The errors handed to the writer and then the unsent one are those of
  -- before, in their order, and at most one more. The request that waits, or, if none waits and no
  -- error is unsent, the request that is read, is delivered, or an error with its id is unsent, or it
  -- waits unchanged, or the transport closes; the last only if the writer of errors has failed or the
  -- id is in flight or on record.
  pub receive_turn-Kept :
      (now : ℕ) (t : Transport Ident)
      → IsSingle t
      → IsSingle (receive_turn text_bytes now t).0
        × (ErrorsKept t (receive_turn text_bytes now t).0
            × RequestKept t t.awaiting_release t.pending_error t.inbox
                (receive_turn text_bytes now t))
  unfolding receive_turn
  receive_turn-Kept now t single = (
    receive_turn-IsSingle text_bytes now t single,
    if-split
        (λ (x : Transport Ident × Turn Ident).
          ErrorsKept t x.0 × RequestKept t t.awaiting_release t.pending_error t.inbox x)
        t.error_writer_failed
        (λ f. (
          same_errors t t refl refl,
          failed-RequestKept t t.awaiting_release t.pending_error t.inbox f,
        ))
        (λ f. admit_waiting-Kept now t t.awaiting_release refl single),
  )
