-- ===== src/Scheduler/Safety.antt =====
-- When the `unwrap`s and the `unreachable!`s of `progress` in src/tasks/mod.rs panic.
use imap_client.Prelude.{
  Option, none, some, List, [], ◌∷◌, ◌++◌, ◌≡◌, refl, ap, subst, Result, ok, err, ◌⊎◌, inl, inr,
  ◌↔◌, All, arith,
}
use imap_client.Prelude.Deque.{IsFirst, remove_first-Removes}
use imap_client.Imap.{
  ImapTypes, Event, Status, Tagged, Response, CommandContinuationRequest, AuthenticateData,
}
use imap_client.Task.{Registry, TaskAny, process_continuation_request_authenticate}
use imap_client.Scheduler.ClientNext.{ClientNext}
use imap_client.Scheduler.TaskMap.{
  Entry, TaskMap, HasHandle, put_back, remove_by_handle, update_task_by_handle,
}
use imap_client.Scheduler.State.{Scheduler}
use imap_client.Scheduler.Progress.{
  panic, activate, finish, offer, authenticate_with, authenticate_continue, complete, handle_event,
}
use imap_client.Scheduler.Routing.{complete_by_tag}

not-All-append :
    {A : Type 0} (P : A → Type 0) (before : List A) (x : A) (after : List A)
    → P x
    → ¬ All (λ y. ¬ P y) (before ++ x ∷ after)
not-All-append P [] x after hit h = h.0 hit
not-All-append P (y ∷ before) x after hit h = not-All-append P before x after hit h.1

module _ {T : ImapTypes} {R : Registry T} {A : Type 0} (f : TaskAny R → A × TaskAny R)
    (handle : T.CommandHandle) where
  -- How the task of a handle is updated.
  abbrev pub Updates : TaskMap R → Option (A × TaskMap R) → Type 0
  Updates es r =
      (All (λ e. ¬ HasHandle handle e) es × (r ≡ none))
      ⊎ ((before : TaskMap R) × (entry : Entry R) × (after : TaskMap R) × (es
            ≡ before ++ entry ∷ after)
          × All (λ e. ¬ HasHandle handle e) before
          × HasHandle handle entry
          × (r
              ≡ some
                  ((f entry.task).0, before ++ record entry { task = (f entry.task).1 } ∷ after)))

  update_task_by_handle-Updates : (es : TaskMap R) → Updates es (update_task_by_handle es handle f)
  unfolding update_task_by_handle
  update_task_by_handle-Updates [] = inl (tt, refl)
  update_task_by_handle-Updates (e ∷ es) =
      elim (T.handle_discrete handle e.handle)
        as (λ d. Updates (e ∷ es) (elim d [
          | yes _ ↦ some ((f e.task).0, record e { task = (f e.task).1 } ∷ es)
          | no _ ↦ put_back e (update_task_by_handle es handle f)
        ])) [
          | yes hit ↦ inr ([], e, es, refl, tt, hit, refl)
          | no miss ↦ elim (update_task_by_handle-Updates es) [
            | inl (misses, r) ↦ inl ((miss, misses), rw r)
            | inr (before, entry, after, split, skipped, hit, r) ↦
                inr (e ∷ before, entry, after, ap (◌∷◌ e) split, (miss, skipped), hit, rw r)
          ]
        ]

  update_task_by_handle-append :
      (before : TaskMap R) (entry : Entry R) (after : TaskMap R)
      → All (λ e. ¬ HasHandle handle e) before
      → HasHandle handle entry
      → update_task_by_handle (before ++ entry ∷ after) handle f
        ≡ some ((f entry.task).0, before ++ record entry { task = (f entry.task).1 } ∷ after)
  unfolding update_task_by_handle
  update_task_by_handle-append [] entry after skipped hit = ground arith
  update_task_by_handle-append (e ∷ before) entry after skipped hit =
      ground (arith, update_task_by_handle-append before entry after skipped.1 hit)

  update_task_by_handle_lacks :
      (es : TaskMap R)
      → All (λ e. ¬ HasHandle handle e) es
      → update_task_by_handle es handle f ≡ none
  unfolding update_task_by_handle
  update_task_by_handle_lacks [] lacks = refl
  update_task_by_handle_lacks (e ∷ es) lacks =
      ground (arith, update_task_by_handle_lacks es lacks.1)

module _ {T : ImapTypes} {R : Registry T} {N : ClientNext T} (s : Scheduler R N) where
  -- No task of the queue has the handle.
  abbrev pub Lacks : T.CommandHandle → TaskMap R → Type 0
  Lacks h es = All (λ e. ¬ HasHandle h e) es

  IsFirst→¬Lacks :
      {h : T.CommandHandle} {es rest : TaskMap R} {e : Entry R}
      → IsFirst (HasHandle h) es e rest
      → ¬ Lacks h es
  IsFirst→¬Lacks {h} {e = e} first lacks =
      not-All-append (HasHandle h) first.before e first.after first.hit
        (subst (Lacks h) first.split lacks)

  activate-panics : (h : T.CommandHandle) → (activate s h ≡ panic) ↔ Lacks h s.waiting_tasks
  unfolding activate remove_by_handle
  activate-panics h =
      elim (remove_first-Removes {P = HasHandle h} (λ e. T.handle_discrete h e.handle)
        s.waiting_tasks) [
          | inl (lacks, e) ↦ (λ _. lacks, λ _. rw (e, activate))
          | inr (x, rest, first, e) ↦
              (λ p. ground (arith, e), λ lacks. absurd (IsFirst→¬Lacks first lacks))
        ]

  -- A status that is no tagged status.
  abbrev pub IsUntagged : Status T → Type 0
  IsUntagged (Status.tagged tagged) = ⊥
  IsUntagged _ = Unit

  finish-panics :
      (h : T.CommandHandle) (status : Status T)
      → (finish s h status ≡ panic) ↔ (IsUntagged status ⊎ Lacks h s.active_tasks)
  unfolding finish remove_by_handle
  finish-panics h (Status.tagged tagged) =
      elim (remove_first-Removes {P = HasHandle h} (λ e. T.handle_discrete h e.handle)
        s.active_tasks) [
          | inl (lacks, e) ↦ (λ _. inr lacks, λ _. rw (e, finish))
          | inr (x, rest, first, e) ↦ (
            λ p. ground (arith, e),
            elim [ inl u ↦ absurd u | inr lacks ↦ absurd (IsFirst→¬Lacks first lacks) ],
          )
        ]
  finish-panics h _ = (λ _. inl tt, λ _. refl)

  -- The client refuses the data with which a task answers a continuation request.
  abbrev pub Refuses : Result (AuthenticateData T) (CommandContinuationRequest T) → Type 0
  Refuses (ok answer) = N.set_authenticate_data s.client_next answer ≡ none
  Refuses (err c) = ⊥

  -- The first active task of the handle answers the request, and the client refuses the answer.
  pub record AnswerRefused (h : T.CommandHandle) (c : CommandContinuationRequest T) : Type 0 where
    pub before : TaskMap R
    pub entry : Entry R
    pub after : TaskMap R
    pub split : s.active_tasks ≡ before ++ entry ∷ after
    pub skipped : Lacks h before
    pub hit : HasHandle h entry
    pub refused : Refuses (process_continuation_request_authenticate R entry.task c).0

  authenticate_with-panics :
      (active : TaskMap R) (r : Result (AuthenticateData T) (CommandContinuationRequest T))
      → (authenticate_with (record s { active_tasks = active }) r ≡ panic) ↔ Refuses r
  authenticate_with-panics active (ok answer) = (λ p. ground arith, λ e. rw (e, authenticate_with))
  authenticate_with-panics active (err c) = (λ p. cc, λ e. absurd e)

  authenticate_continue-panics :
      (h : T.CommandHandle) (c : CommandContinuationRequest T)
      → (authenticate_continue s h c ≡ panic) ↔ (Lacks h s.active_tasks ⊎ AnswerRefused h c)
  unfolding authenticate_continue
  authenticate_continue-panics h c = (
    λ p. elim (update_task_by_handle-Updates answer h s.active_tasks) [
      | inl (lacks, e) ↦ inl lacks
      | inr (before, entry, after, split, skipped, hit, e) ↦ inr (record {
        before = before;
        entry = entry;
        after = after;
        split = split;
        skipped = skipped;
        hit = hit;
        refused = (authenticate_with-panics _ _).0 (rw (e, authenticate_continue) at p);
      })
    ],
    elim [
      | inl lacks ↦
          rw (update_task_by_handle_lacks answer h s.active_tasks lacks, authenticate_continue)
      | inr q ↦
          rw
            (
              q.split,
              update_task_by_handle-append answer h q.before q.entry q.after q.skipped q.hit,
              authenticate_continue,
            )
            ((authenticate_with-panics _ _).1 q.refused)
    ],
  )
    where
      answer : TaskAny R → Result (AuthenticateData T) (CommandContinuationRequest T) × TaskAny R
      answer task = process_continuation_request_authenticate R task c

  offer-returns :
      {A : Type 0} (a : A) (f : TaskAny R → A → Option A × TaskAny R) (response : A → Response T)
      → ¬ (offer s a f response ≡ panic)
  unfolding offer
  offer-returns a f response p = ground arith

  complete-returns : (tagged : Tagged T) → ¬ (complete s tagged ≡ panic)
  complete-returns tagged p = elim (complete_by_tag s tagged) [
    | inl (_, e) ↦ cc
    | inr (entry, rest, first, e) ↦ cc
  ]

  -- When an event makes the loop panic.
  abbrev pub PanicsOn : Event T → Type 0
  PanicsOn (Event.command_sent h) = Lacks h s.waiting_tasks
  PanicsOn (Event.authenticate_started h) = Lacks h s.waiting_tasks
  PanicsOn (Event.idle_command_sent h) = Lacks h s.waiting_tasks
  PanicsOn (Event.command_rejected h status) = IsUntagged status ⊎ Lacks h s.active_tasks
  PanicsOn (Event.authenticate_status_received h status) =
      IsUntagged status ⊎ Lacks h s.active_tasks
  PanicsOn (Event.idle_rejected h status) = IsUntagged status ⊎ Lacks h s.active_tasks
  PanicsOn (Event.authenticate_continuation_request_received h c) =
      Lacks h s.active_tasks ⊎ AnswerRefused h c
  PanicsOn _ = ⊥

  -- An event makes the loop panic exactly in these cases: a command is sent, or an authentication
  -- or IDLE started, whose handle no waiting task has; a command, authentication or IDLE is
  -- completed by a status that is not tagged, or with a handle that no active task has; or an
  -- authentication continues with a handle that no active task has, or with an answer of its task
  -- that the client refuses. No data, greeting, continuation request, untagged status, BYE or
  -- tagged status makes it panic.
  pub handle_event-panics : (e : Event T) → (handle_event s e ≡ panic) ↔ PanicsOn e
  unfolding handle_event
  handle_event-panics (Event.command_sent h) = activate-panics h
  handle_event-panics (Event.authenticate_started h) = activate-panics h
  handle_event-panics (Event.idle_command_sent h) = activate-panics h
  handle_event-panics (Event.command_rejected h status) = finish-panics h status
  handle_event-panics (Event.authenticate_status_received h status) = finish-panics h status
  handle_event-panics (Event.idle_rejected h status) = finish-panics h status
  handle_event-panics (Event.authenticate_continuation_request_received h c) =
      authenticate_continue-panics h c
  handle_event-panics (Event.data_received d) = (offer-returns d _ _, absurd)
  handle_event-panics (Event.continuation_request_received c) = (offer-returns c _ _, absurd)
  handle_event-panics (Event.status_received (Status.untagged b)) = (offer-returns b _ _, absurd)
  handle_event-panics (Event.status_received (Status.bye b)) = (offer-returns b _ _, absurd)
  handle_event-panics (Event.status_received (Status.tagged t)) = (complete-returns t, absurd)
  handle_event-panics (Event.greeting_received g) = (λ p. cc, absurd)
  handle_event-panics (Event.idle_accepted h) = (λ p. cc, absurd)
  handle_event-panics (Event.idle_done_sent h) = (λ p. cc, absurd)
