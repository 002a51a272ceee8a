-- ===== src/Scheduler/Termination.antt =====
-- The loop of `progress` in src/tasks/mod.rs ends.
use imap_client.Prelude.{
  ℕ, zero, suc, ◌≤◌, ◌<◌, Option, some, ◌≡◌, refl, Result, ok, err, Option-cases, Bool-cases, inl,
  inr, arith,
}
use imap_client.Imap.{
  ImapTypes, Event, Status, Tagged, Response, CommandContinuationRequest, AuthenticateData,
  Interrupt, Error, io, error,
}
use imap_client.Task.{Registry, TaskAny, process_continuation_request_authenticate}
use imap_client.Scheduler.ClientNext.{ClientNext}
use imap_client.Scheduler.TaskMap.{remove_by_handle, remove_by_tag, update_task_by_handle}
use imap_client.Scheduler.Trickle.{trickle_down}
use imap_client.Scheduler.State.{Scheduler, Progressed, Outcome, returns, panics}
use imap_client.Scheduler.Progress.{
  Flow, continues, return, panic, on_entry, activate, finish, offer, authenticate_with,
  authenticate_continue, complete, handle_event, handle_next, is_fetch, skip_or_fail, step,
  progress,
}

-- What is assumed of the client: without new input it produces finitely many events and reports
-- finitely many malformed messages before it asks for input or output.
pub record Drains {T : ImapTypes} (N : ClientNext T) : Type 0 where
  pub pending : N.Client → ℕ
  pub next_event :
      (c : N.Client) (e : Event T) → (N.next c).0 ≡ ok e → pending (N.next c).1 < pending c
  pub next_malformed :
      (c : N.Client) (e : Error T) → (N.next c).0 ≡ err (error e) → pending (N.next c).1 < pending c
  pub set_data :
      (c c' : N.Client) (a : AuthenticateData T)
      → N.set_authenticate_data c a ≡ some c'
      → pending c' ≤ pending c

module _ {T : ImapTypes} {R : Registry T} {N : ClientNext T} (drains : Drains N) where
  open drains use {pending}

  -- If the loop goes on, at most `n` is pending.
  abbrev Leaves : ℕ → Flow (Scheduler R N) (Progressed R) → Type 0
  Leaves n (continues s') = pending s'.client_next ≤ n
  Leaves n _ = Unit

  module _ (s : Scheduler R N) where
    abbrev here : ℕ
    here = pending s.client_next

    activate-Leaves : (h : T.CommandHandle) → Leaves here (activate s h)
    unfolding activate
    activate-Leaves h = elim (Option-cases (remove_by_handle s.waiting_tasks h)) [
      | inl e ↦ rw (e, activate) tt
      | inr (r, e) ↦ rw (e, activate) (omega arith)
    ]

    finish-Leaves : (h : T.CommandHandle) (status : Status T) → Leaves here (finish s h status)
    unfolding finish
    finish-Leaves h (Status.tagged tagged) =
        elim (Option-cases (remove_by_handle s.active_tasks h)) [
          | inl e ↦ rw (e, finish) tt
          | inr (r, e) ↦ rw (e, finish) tt
        ]
    finish-Leaves h _ = tt

    complete-Leaves : (tagged : Tagged T) → Leaves here (complete s tagged)
    unfolding complete
    complete-Leaves tagged = elim (Option-cases (remove_by_tag s.active_tasks tagged.tag)) [
      | inl e ↦ rw (e, complete) tt
      | inr (r, e) ↦ rw (e, complete) tt
    ]

    offer-Leaves :
        {A : Type 0} (a : A) (f : TaskAny R → A → Option A × TaskAny R) (response : A → Response T)
        → Leaves here (offer s a f response)
    unfolding offer
    offer-Leaves a f response = elim (Option-cases (trickle_down a s.active_tasks (on_entry f)).0) [
      | inl e ↦ rw (e, offer) (omega arith)
      | inr (a', e) ↦ rw (e, offer) tt
    ]

    authenticate_with-Leaves :
        (r : Result (AuthenticateData T) (CommandContinuationRequest T))
        → Leaves here (authenticate_with s r)
    authenticate_with-Leaves (ok a) =
        elim (Option-cases (N.set_authenticate_data s.client_next a)) [
          | inl e ↦ rw (e, authenticate_with) tt
          | inr (c, e) ↦ rw (e, authenticate_with) (drains.set_data s.client_next c a e)
        ]
    authenticate_with-Leaves (err c) = tt

  authenticate_continue-Leaves :
      (s : Scheduler R N) (h : T.CommandHandle) (c : CommandContinuationRequest T)
      → Leaves (here s) (authenticate_continue s h c)
  unfolding authenticate_continue
  authenticate_continue-Leaves s h c =
      elim (Option-cases (
        update_task_by_handle s.active_tasks h
          (λ task. process_continuation_request_authenticate R task c))) [
            | inl e ↦ rw (e, authenticate_continue) tt
            | inr ((r, tasks), e) ↦
                rw (e, authenticate_continue)
                  (authenticate_with-Leaves (record s { active_tasks = tasks }) r)
          ]

  handle_event-Leaves : (s : Scheduler R N) (e : Event T) → Leaves (here s) (handle_event s e)
  unfolding handle_event
  handle_event-Leaves s (Event.greeting_received greeting) = tt
  handle_event-Leaves s (Event.command_sent h) = activate-Leaves s h
  handle_event-Leaves s (Event.command_rejected h status) = finish-Leaves s h status
  handle_event-Leaves s (Event.authenticate_started h) = activate-Leaves s h
  handle_event-Leaves s (Event.authenticate_continuation_request_received h c) =
      authenticate_continue-Leaves s h c
  handle_event-Leaves s (Event.authenticate_status_received h status) = finish-Leaves s h status
  handle_event-Leaves s (Event.data_received d) = offer-Leaves s d _ _
  handle_event-Leaves s (Event.continuation_request_received c) = offer-Leaves s c _ _
  handle_event-Leaves s (Event.status_received (Status.untagged body)) = offer-Leaves s body _ _
  handle_event-Leaves s (Event.status_received (Status.bye bye)) = offer-Leaves s bye _ _
  handle_event-Leaves s (Event.status_received (Status.tagged tagged)) = complete-Leaves s tagged
  handle_event-Leaves s (Event.idle_command_sent h) = activate-Leaves s h
  handle_event-Leaves s (Event.idle_accepted h) = omega arith
  handle_event-Leaves s (Event.idle_rejected h status) = finish-Leaves s h status
  handle_event-Leaves s (Event.idle_done_sent h) = omega arith

  skip_or_fail-Leaves : (s : Scheduler R N) (e : Error T) → Leaves (here s) (skip_or_fail s e)
  skip_or_fail-Leaves s (Error.malformed_message discarded) =
      elim (Bool-cases (is_fetch discarded)) [
        | inl fetch ↦ rw (fetch, skip_or_fail) (omega arith)
        | inr other ↦ rw (other, skip_or_fail) tt
      ]
  skip_or_fail-Leaves s (Error.other e) = tt

  -- After one iteration less is pending.
  abbrev Falls : ℕ → Flow (Scheduler R N) (Progressed R) → Type 0
  Falls n (continues s') = pending s'.client_next < n
  Falls n _ = Unit

  Leaves→Falls :
      (m n : ℕ) (flow : Flow (Scheduler R N) (Progressed R)) → Leaves m flow → m < n → Falls n flow
  Leaves→Falls m n (continues s') h lt = omega arith
  Leaves→Falls m n (return s' r) h lt = tt
  Leaves→Falls m n panic h lt = tt

  handle_next-Falls :
      (n : ℕ) (s : Scheduler R N) (r : Result (Event T) (Interrupt (Error T)))
      → ((e : Event T) → r ≡ ok e → here s < n)
      → ((e : Error T) → r ≡ err (error e) → here s < n)
      → Falls n (handle_next s r)
  unfolding handle_next
  handle_next-Falls n s (ok e) events errors =
      Leaves→Falls (here s) n _ (handle_event-Leaves s e) (events e refl)
  handle_next-Falls n s (err (io i)) events errors = tt
  handle_next-Falls n s (err (error e)) events errors =
      Leaves→Falls (here s) n _ (skip_or_fail-Leaves s e) (errors e refl)

  step-Falls : (s : Scheduler R N) → Falls (here s) (step s)
  unfolding step
  step-Falls s =
      handle_next-Falls (here s) (record s { client_next = (N.next s.client_next).1 }) _
        (drains.next_event s.client_next) (drains.next_malformed s.client_next)

  -- With more fuel than what the client has pending, `progress` does not run out of it: it
  -- returns a result, or it panics.
  pub progress_total :
      (fuel : ℕ) (s : Scheduler R N)
      → pending s.client_next < fuel
      → (o : Outcome (Scheduler R N) (Progressed R)) × (progress fuel s ≡ some o)
  unfolding progress
  progress_total zero s h = absurd (omega arith)
  progress_total (suc fuel) s h = go (step s) (step-Falls s) (progress_total fuel)
    where
      go :
          (flow : Flow (Scheduler R N) (Progressed R))
          → Falls (here s) flow
          → ((s' : Scheduler R N)
              → pending s'.client_next < fuel
              → (o : Outcome (Scheduler R N) (Progressed R)) × (progress fuel s' ≡ some o))
          → (o : Outcome (Scheduler R N) (Progressed R)) × ((elim flow [
            | continues s' ↦ progress fuel s'
            | return s' r ↦ some (returns s' r)
            | panic ↦ some panics
          ])
              ≡ some o)
      go (continues s') falls rest = rest s' (omega arith)
      go (return s' r) falls rest = (returns s' r, refl)
      go panic falls rest = (panics, refl)
