-- ===== src/Mcp/Admission/Release.antt =====
-- Notifications when a request leaves the table.
use quarters.Prelude.{
  ℕ, ◌≤◌, ◌<◌, ◌≡◌, inl, inr, Bool, true, false, Option, arith, if◌then◌else◌, Option-cases,
  is_some, Eq, nat_eq, bytes_eq, lookup, insert, lookup-remove, lookup-insert,
}
use quarters.Mcp.Admission.{
  RequestState, is_response_started, running, response_started, handler_done, RequestAdmission,
  default_request, claimed_request, admit, reserve, claim, start_response, finish_response, close,
  cancel, enter_legacy, finish_handler, Call, reserve_call, claim_call, start_response_call,
  finish_response_call, cancel_call, finish_handler_call, enter_legacy_call, close_call, call,
}

abbrev pub holds : {Ident : Type 0} ⦃e : Eq Ident⦄ → Ident → RequestAdmission Ident → Bool
holds id a = is_some (lookup id a.state.requests)

module _ {Ident : Type 0} ⦃e : Eq Ident⦄ where
  admit-holds :
      (a : RequestAdmission Ident) (j id : Ident) (r : RequestState)
      → holds id a ≡ true
      → holds id (admit a j r).0 ≡ true
  unfolding admit
  admit-holds a j id r h = ground (arith, lookup-insert j id r a.state.requests)

  admit-released :
      (a : RequestAdmission Ident) (j : Ident) (r : RequestState)
      → (admit a j r).0.released ≡ a.released
  unfolding admit
  admit-released a j r = ground arith

  call_notifies :
      (text_bytes : Ident → Option ℕ) (a : RequestAdmission Ident) (id : Ident) (c : Call Ident)
      → (a.released ≤ (call text_bytes a c).released)
        × (holds id a ≡ true
            → holds id (call text_bytes a c) ≡ false
            → a.released < (call text_bytes a c).released)
  unfolding call reserve claim start_response finish_response cancel enter_legacy finish_handler
      close
  call_notifies text_bytes a id (reserve_call j) =
      ground (arith, admit-holds a j id default_request, admit-released a j default_request)
  call_notifies text_bytes a id (claim_call j) = elim (Option-cases (lookup j a.state.requests)) [
    | inl n ↦
        ground (arith, n, admit-holds a j id claimed_request, admit-released a j claimed_request)
    | inr (r, p) ↦ ground (
      arith,
      p,
      e.beq_iff j id,
      lookup-insert j id (record r { phase = running }) a.state.requests,
    )
  ]
  call_notifies text_bytes a id (start_response_call j) =
      elim (Option-cases (lookup j a.state.requests)) [
        | inl n ↦ ground (arith, n)
        | inr (r, p) ↦ ground (
          arith,
          p,
          e.beq_iff j id,
          lookup-insert j id (record r { phase = response_started }) a.state.requests,
        )
      ]
  call_notifies text_bytes a id (cancel_call j) = elim (Option-cases (lookup j a.state.requests)) [
    | inl n ↦ ground (arith, n)
    | inr (r, p) ↦ ground (
      arith,
      p,
      e.beq_iff j id,
      lookup-insert j id (record r { cancelled = true }) a.state.requests,
      lookup-remove j id (insert j (record r { cancelled = true }) a.state.requests),
    )
  ]
  call_notifies text_bytes a id (finish_handler_call j) =
      elim (Option-cases (lookup j a.state.requests)) [
        | inl n ↦ ground (arith, n)
        | inr (r, p) ↦ ground (
          arith,
          p,
          e.beq_iff j id,
          lookup-insert j id
              (record r {
                phase = if is_response_started r.phase then response_started else handler_done;
              })
              a.state.requests,
          lookup-remove j id (
              insert j
                (record r {
                  phase = if is_response_started r.phase then response_started else handler_done;
                })
                a.state.requests),
        )
      ]
  call_notifies text_bytes a id (finish_response_call j) = ground arith
  call_notifies text_bytes a id enter_legacy_call = ground arith
  call_notifies text_bytes a id close_call = ground arith

  -- No wakeup is lost: a call after which an id that was in flight is so no longer has notified the
  -- waiters.
  pub call-notifies_leaving :
      (text_bytes : Ident → Option ℕ) (a : RequestAdmission Ident) (id : Ident) (c : Call Ident)
      → holds id a ≡ true
      → holds id (call text_bytes a c) ≡ false
      → a.released < (call text_bytes a c).released
  call-notifies_leaving text_bytes a id c h l = (call_notifies text_bytes a id c).1 h l
