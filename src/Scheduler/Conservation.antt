-- ===== src/Scheduler/Conservation.antt =====
-- No task is lost or made up: what `Scheduler` of src/tasks/mod.rs does to the handles it holds,
-- and to the types of the outputs that they stand for.
use mathlib.Core.List.{Perm, perm_middle, perm_append_singleton, map-append}
use mathlib.Core.List.Perm
use mathlib.Core.Option
use imap_client.Prelude.{
  ℕ, zero, suc, Option, none, some, List, [], ◌∷◌, ◌++◌, map, ◌≡◌, refl, ap, Result, ok, err, inl,
  inr, arith, append_assoc, Option-cases, Bool-cases,
}
use imap_client.Prelude.Deque.{IsFirst, remove_first-Removes}
use imap_client.Imap.{
  ImapTypes, Event, Status, Error, io, error, Interrupt, Response, Tagged,
  CommandContinuationRequest, AuthenticateData,
}
use imap_client.Task.{
  Registry, TaskAny, process_data, process_untagged, process_continuation_request,
  process_continuation_request_authenticate, process_bye, process_tagged,
}
use imap_client.Scheduler.ClientNext.{ClientNext}
use imap_client.Scheduler.TaskMap.{
  Entry, TaskMap, HasHandle, push_back, remove_by_handle, update_task_by_handle,
}
use imap_client.Scheduler.Trickle.{trickle_down}
use imap_client.Scheduler.State.{
  Scheduler, SchedulerEvent, TaskToken, Progressed, Outcome, returns, panics,
}
use imap_client.Scheduler.Progress.{
  Flow, continues, return, panic, on_entry, activate, finish, offer, authenticate_with,
  authenticate_continue, complete, is_fetch, skip_or_fail, handle_event, handle_next, step,
  progress,
}
use imap_client.Scheduler.Routing.{complete_by_tag}

-- A handle, and the type of the output that its task will have or that its token has.
abbrev pub Promise : {T : ImapTypes} → Registry T → Type 0
Promise {T} R = T.CommandHandle × Option R.OutputType

module _ {T : ImapTypes} {R : Registry T} where
  abbrev pub promise : Entry R → Promise R
  promise e = (e.handle, some (R.output_type e.task.type))

  abbrev pub promises_of : TaskMap R → List (Promise R)
  promises_of = map promise

  -- A method of the task does not change its type.
  abbrev KeepsType : {A : Type 0} → (TaskAny R → A × TaskAny R) → Type 0
  KeepsType f = (task : TaskAny R) → (f task).1.type ≡ task.type

  IsFirst-perm :
      {P : Entry R → Type 0} {xs rest : TaskMap R} {x : Entry R}
      → IsFirst P xs x rest
      → Perm (promises_of xs) (promise x ∷ promises_of rest)
  IsFirst-perm {x = x} s =
      rw (s.split, s.others, map-append, map-append)
        (perm_middle (promises_of s.before) (promises_of s.after))

  promises-trickle_down :
      {A : Type 0} (f : TaskAny R → A → Option A × TaskAny R)
      (keeps : (a : A) → KeepsType (λ task. f task a)) (a : A) (es : TaskMap R)
      → promises_of (trickle_down a es (on_entry f)).1 ≡ promises_of es
  unfolding trickle_down
  promises-trickle_down f keeps a [] = refl
  promises-trickle_down f keeps a (e ∷ es) = elim (Option-cases (f e.task a).0) [
    | inl kept ↦ ground (arith, kept, keeps a e.task)
    | inr (a', passed) ↦ ground (arith, passed, keeps a e.task, promises-trickle_down f keeps a' es)
  ]

  promises-update :
      {A : Type 0} (f : TaskAny R → A × TaskAny R) (keeps : KeepsType f) (h : T.CommandHandle)
      (es : TaskMap R) {a : A} {es' : TaskMap R}
      → update_task_by_handle es h f ≡ some (a, es')
      → promises_of es' ≡ promises_of es
  unfolding update_task_by_handle
  promises-update f keeps h [] e = cc
  promises-update {A} f keeps h (x ∷ es) {a} {es'} e =
      elim (Option-cases (update_task_by_handle es h f)) [
        | inl absent ↦ ground (arith, absent, keeps x.task)
        | inr (found, there) ↦ ground (
          arith,
          there,
          keeps x.task,
          promises-update f keeps h es {a = found.0} {es' = found.1} there,
        )
      ]

  -- The handle of a token, and the type of the output in it.
  abbrev pub fulfilled : TaskToken R → Promise R
  fulfilled token = (token.handle, Option.map (λ output. output.type) token.output)

  -- What a result of `progress` finishes.
  abbrev pub released : Progressed R → List (Promise R)
  released (ok (SchedulerEvent.task_finished token)) = fulfilled token ∷ []
  released _ = []

module _ {A : Type 0} {x : A} where
  move-perm : (a : List A) {w w' : List A} → Perm w (x ∷ w') → Perm (w ++ a) (w' ++ (a ++ x ∷ []))
  move-perm a {w' = w'} p =
      Perm.trans (Perm.append_right a p)
        (Perm.symm (rw (← append_assoc w' a (x ∷ [])) (perm_append_singleton x (w' ++ a))))

  release-perm : (w : List A) {a a' : List A} → Perm a (x ∷ a') → Perm (w ++ a) (x ∷ (w ++ a'))
  release-perm w {a' = a'} p = Perm.trans (Perm.append_left w p) (perm_middle w a')

module _ {T : ImapTypes} {R : Registry T} {N : ClientNext T} where
  -- The handles and output types of all the tasks that the scheduler holds.
  abbrev pub promises : Scheduler R N → List (Promise R)
  promises s = promises_of s.waiting_tasks ++ promises_of s.active_tasks

  -- An iteration of the loop keeps the promises but for the one that it releases.
  abbrev pub Conserves : Scheduler R N → Flow (Scheduler R N) (Progressed R) → Type 0
  Conserves s (continues s') = Perm (promises s) (promises s')
  Conserves s (return s' r) = Perm (promises s) (released r ++ promises s')
  Conserves s panic = Unit

  activate-Conserves : (s : Scheduler R N) (h : T.CommandHandle) → Conserves s (activate s h)
  unfolding activate remove_by_handle push_back
  activate-Conserves s h =
      elim (remove_first-Removes {P = HasHandle h} (λ e. T.handle_discrete h e.handle)
        s.waiting_tasks) [
          | inl (_, e) ↦ rw (e, activate) tt
          | inr (entry, rest, first, e) ↦
              rw (e, activate)
                (rw map-append (move-perm (promises_of s.active_tasks) (IsFirst-perm first)))
        ]

  finish-Conserves :
      (s : Scheduler R N) (h : T.CommandHandle) (status : Status T)
      → Conserves s (finish s h status)
  unfolding finish remove_by_handle process_tagged
  finish-Conserves s h (Status.tagged tagged) =
      elim (remove_first-Removes {P = HasHandle h} (λ e. T.handle_discrete h e.handle)
        s.active_tasks) [
          | inl (_, e) ↦ rw (e, finish) tt
          | inr (entry, rest, first, e) ↦
              rw (e, finish)
                (rw first.hit (release-perm (promises_of s.waiting_tasks) (IsFirst-perm first)))
        ]
  finish-Conserves s h _ = tt

  complete-Conserves : (s : Scheduler R N) (tagged : Tagged T) → Conserves s (complete s tagged)
  unfolding process_tagged
  complete-Conserves s tagged = elim (complete_by_tag s tagged) [
    | inl (_, e) ↦ rw e Perm.rfl
    | inr (entry, rest, first, e) ↦
        rw e (release-perm (promises_of s.waiting_tasks) (IsFirst-perm first))
  ]

  offer-Conserves :
      {A : Type 0} (s : Scheduler R N) (a : A) (f : TaskAny R → A → Option A × TaskAny R)
      (response : A → Response T)
      → ((a : A) → KeepsType (λ task. f task a))
      → Conserves s (offer s a f response)
  unfolding offer
  offer-Conserves s a f response keeps =
      let same = promises-trickle_down f keeps a s.active_tasks in
      elim (Option-cases (trickle_down a s.active_tasks (on_entry f)).0) [
        | inl e ↦ rw (e, offer) (rw same Perm.rfl)
        | inr (a', e) ↦ rw (e, offer) (rw same Perm.rfl)
      ]

  authenticate_with-Conserves :
      (s s' : Scheduler R N) (r : Result (AuthenticateData T) (CommandContinuationRequest T))
      → promises s' ≡ promises s
      → Conserves s (authenticate_with s' r)
  authenticate_with-Conserves s s' (ok answer) same =
      elim (Option-cases (N.set_authenticate_data s'.client_next answer)) [
        | inl e ↦ rw (e, authenticate_with) tt
        | inr (c, e) ↦ rw (e, authenticate_with) (rw same Perm.rfl)
      ]
  authenticate_with-Conserves s s' (err continuation) same = rw same Perm.rfl

  authenticate_continue-Conserves :
      (s : Scheduler R N) (h : T.CommandHandle) (c : CommandContinuationRequest T)
      → Conserves s (authenticate_continue s h c)
  unfolding authenticate_continue process_continuation_request_authenticate
  authenticate_continue-Conserves s h c =
      elim (Option-cases (
        update_task_by_handle s.active_tasks h
          (λ task. process_continuation_request_authenticate R task c))) [
            | inl e ↦ rw (e, authenticate_continue) tt
            | inr ((r, tasks), e) ↦
                rw (e, authenticate_continue)
                  (authenticate_with-Conserves s (record s { active_tasks = tasks }) r
                    (ap (λ hs. promises_of s.waiting_tasks ++ hs)
                      (promises-update _ (λ task. refl) h s.active_tasks e)))
          ]

  handle_event-Conserves : (s : Scheduler R N) (e : Event T) → Conserves s (handle_event s e)
  unfolding handle_event process_data process_continuation_request process_untagged process_bye
  handle_event-Conserves s (Event.greeting_received greeting) = Perm.rfl
  handle_event-Conserves s (Event.command_sent h) = activate-Conserves s h
  handle_event-Conserves s (Event.command_rejected h status) = finish-Conserves s h status
  handle_event-Conserves s (Event.authenticate_started h) = activate-Conserves s h
  handle_event-Conserves s (Event.authenticate_continuation_request_received h c) =
      authenticate_continue-Conserves s h c
  handle_event-Conserves s (Event.authenticate_status_received h status) =
      finish-Conserves s h status
  handle_event-Conserves s (Event.data_received d) = offer-Conserves s d _ _ (λ a task. refl)
  handle_event-Conserves s (Event.continuation_request_received c) =
      offer-Conserves s c _ _ (λ a task. refl)
  handle_event-Conserves s (Event.status_received (Status.untagged body)) =
      offer-Conserves s body _ _ (λ a task. refl)
  handle_event-Conserves s (Event.status_received (Status.bye bye)) =
      offer-Conserves s bye _ _ (λ a task. refl)
  handle_event-Conserves s (Event.status_received (Status.tagged tagged)) =
      complete-Conserves s tagged
  handle_event-Conserves s (Event.idle_command_sent h) = activate-Conserves s h
  handle_event-Conserves s (Event.idle_accepted h) = Perm.rfl
  handle_event-Conserves s (Event.idle_rejected h status) = finish-Conserves s h status
  handle_event-Conserves s (Event.idle_done_sent h) = Perm.rfl

  skip_or_fail-Conserves : (s : Scheduler R N) (e : Error T) → Conserves s (skip_or_fail s e)
  skip_or_fail-Conserves s (Error.malformed_message discarded) =
      elim (Bool-cases (is_fetch discarded)) [
        | inl fetch ↦ rw (fetch, skip_or_fail) Perm.rfl
        | inr other ↦ rw (other, skip_or_fail) Perm.rfl
      ]
  skip_or_fail-Conserves s (Error.other e) = Perm.rfl

  handle_next-Conserves :
      (s : Scheduler R N) (r : Result (Event T) (Interrupt (Error T)))
      → Conserves s (handle_next s r)
  unfolding handle_next
  handle_next-Conserves s (ok event) = handle_event-Conserves s event
  handle_next-Conserves s (err (io i)) = Perm.rfl
  handle_next-Conserves s (err (error e)) = skip_or_fail-Conserves s e

  step-Conserves : (s : Scheduler R N) → Conserves s (step s)
  unfolding step
  step-Conserves s = handle_next-Conserves (record s { client_next = _ }) (N.next s.client_next).0

  -- The same for a call of `progress`.
  abbrev pub Releases : Scheduler R N → Option (Outcome (Scheduler R N) (Progressed R)) → Type 0
  Releases s (some (returns s' r)) = Perm (promises s) (released r ++ promises s')
  Releases s _ = Unit

  Releases-trans :
      (s s' : Scheduler R N) (o : Option (Outcome (Scheduler R N) (Progressed R)))
      → Perm (promises s) (promises s')
      → Releases s' o
      → Releases s o
  Releases-trans s s' none p h = tt
  Releases-trans s s' (some (returns _ r)) p h = Perm.trans p h
  Releases-trans s s' (some panics) p h = tt

  -- A call of `progress` that returns keeps every handle with the type of its output, waiting or
  -- active, but for that of the task that it reports as finished, if it reports one; each is kept
  -- as often as it was there.
  pub progress-Conserves : (fuel : ℕ) (s : Scheduler R N) → Releases s (progress fuel s)
  unfolding progress
  progress-Conserves zero s = tt
  progress-Conserves (suc fuel) s = go (step s) (step-Conserves s) (progress-Conserves fuel)
    where
      go :
          (flow : Flow (Scheduler R N) (Progressed R))
          → Conserves s flow
          → ((s' : Scheduler R N) → Releases s' (progress fuel s'))
          → Releases s (elim flow [
            | continues s' ↦ progress fuel s'
            | return s' r ↦ some (returns s' r)
            | panic ↦ some panics
          ])
      go (continues s') p rest = Releases-trans s s' (progress fuel s') p (rest s')
      go (return s' r) p rest = p
      go panic p rest = tt
