-- ===== src/Resolver/Session.antt =====
-- A whole session of one task in src/tasks/resolver.rs: from the command to the output.
pub mod Talk
pub mod Conversation
use imap_client.Prelude.{
  ℕ, zero, suc, ◌≤◌, ◌<◌, Option, none, some, List, [], ◌∷◌, ◌≡◌, refl, ap, ◌∙◌, ok, if_pos, length,
  Option-cases, inl, inr, arith,
}
use imap_client.Prelude.Deque.{remove_first}
use imap_client.Imap.{ImapTypes, Event, Data, Status, StatusBody, Response}
use imap_client.Task.{Registry, process_data, process_tagged, downcast_self}
use imap_client.Task.Feed.{feed}
use imap_client.Scheduler.ClientNext.{ClientNext}
use imap_client.Scheduler.TaskMap.{Entry, TaskMap, remove_by_tag}
use imap_client.Scheduler.Trickle.{trickle_down}
use imap_client.Scheduler.State.{
  Scheduler, SchedulerEvent, TaskHandle, Outcome, returns, panics, resolve, downcast_output,
  Progressed,
}
use imap_client.Scheduler.Progress.{
  continues, return, panic, offer, complete, handle_event, handle_next, step, progress,
}
use imap_client.Resolver.{Resolved, after_resolve, handle_result, next}

-- The client produces these events, one at each call of `next`.
abbrev pub Emits : {T : ImapTypes} (N : ClientNext T) → N.Client → List (Event T) → Type 0
Emits N c [] = Unit
Emits N c (e ∷ es) = ((N.next c).0 ≡ ok e) × Emits N (N.next c).1 es

-- The entry of a task.
abbrev entry :
    {T : ImapTypes} {R : Registry T} (t : R.TaskType)
    → TaskHandle R t
    → T.Tag
    → (R.task t).Self
    → Entry R
entry t handle tag self = record {
  handle = handle.handle;
  tag = tag;
  task = record { type = t; self = self };
}

-- The events of a session: data, then the completion.
abbrev pub events : {T : ImapTypes} → T.Tag → List (Data T) → StatusBody T → List (Event T)
events tag [] body = Event.status_received (Status.tagged (record { tag = tag; body = body })) ∷ []
events tag (d ∷ ds) body = Event.data_received d ∷ events tag ds body

-- The output of a task that is fed the data and then completed.
abbrev pub outcome :
    {T : ImapTypes} (R : Registry T) (t : R.TaskType)
    → (R.task t).Self
    → List (Data T)
    → StatusBody T
    → R.Output (R.output_type t)
outcome R t self ds body = (R.task t).process_tagged (feed (R.task t).process_data self ds).1 body

abbrev own_result :
    {T : ImapTypes} {R : Registry T} {t : R.TaskType}
    → TaskHandle R t
    → R.Output (R.output_type t)
    → Progressed R
own_result {R = R} {t} handle v = ok (
    SchedulerEvent.task_finished (record {
      handle = handle.handle;
      output = some (record { type = R.output_type t; value = v });
    }))

resolve_own :
    {T : ImapTypes} {R : Registry T} (t : R.TaskType) (handle : TaskHandle R t)
    (v : R.Output (R.output_type t))
    → resolve handle (record {
      handle = handle.handle;
      output = some (record { type = R.output_type t; value = v });
    })
      ≡ returns (record { handle = handle.handle; output = none }) (some v)
unfolding resolve
resolve_own {T} {R} t handle v =
    if_pos (T.handle_discrete handle.handle handle.handle) refl _ _
    ∙ rw (downcast_self R (R.output_type t) v, downcast_output)

module _ {T : ImapTypes} {R : Registry T} {N : ClientNext T} (t : R.TaskType)
    (handle : TaskHandle R t) (tag : T.Tag) (waiting : TaskMap R) (tags : N.TagGenerator) where
  -- The scheduler with this task alone active.
  abbrev running : N.Client → (R.task t).Self → Scheduler R N
  running c self = record {
    client_next = c;
    waiting_tasks = waiting;
    active_tasks = entry t handle tag self ∷ [];
    tag_generator = tags;
  }

  abbrev pub idle : N.Client → Scheduler R N
  idle c = record {
    client_next = c;
    waiting_tasks = waiting;
    active_tasks = [];
    tag_generator = tags;
  }

  step-ok :
      (c : N.Client) (self : (R.task t).Self) (e : Event T)
      → (N.next c).0 ≡ ok e
      → step (running c self) ≡ handle_event (running (N.next c).1 self) e
  unfolding step handle_next
  step-ok c self e h = rw (h, handle_next)

  complete_single :
      (c : N.Client) (self : (R.task t).Self) (body : StatusBody T)
      → handle_event
          (running c self)
          (Event.status_received (Status.tagged (record { tag = tag; body = body })))
        ≡ return (idle c) (
            ok (
              SchedulerEvent.task_finished (record {
                handle = handle.handle;
                output = some (process_tagged R (entry t handle tag self).task body);
              })))
  unfolding handle_event complete remove_by_tag remove_first
  complete_single c self body = ground arith

  offer_single :
      (c : N.Client) (self : (R.task t).Self) (d : Data T)
      → handle_event (running c self) (Event.data_received d)
        ≡ elim ((R.task t).process_data self d).0 [
          | none ↦ continues (running c ((R.task t).process_data self d).1)
          | some d' ↦
              return
                (running c ((R.task t).process_data self d).1)
                (ok (SchedulerEvent.unsolicited (Response.data_response d')))
        ]
  unfolding handle_event offer trickle_down process_data
  offer_single c self d = elim (Option-cases ((R.task t).process_data self d).0) [
    | inl e ↦ ground (arith, e)
    | inr (d', e) ↦ ground (arith, e)
  ]

  progress-return :
      (k : ℕ) (s : Scheduler R N) {s' : Scheduler R N} {r : Progressed R}
      → step s ≡ return s' r
      → progress (suc k) s ≡ some (returns s' r)
  unfolding progress
  progress-return k s e = rw (e, progress)

  progress-continues :
      (k : ℕ) (s : Scheduler R N) {s' : Scheduler R N}
      → step s ≡ continues s'
      → progress (suc k) s ≡ progress k s'
  unfolding progress
  progress-continues k s e = rw (e, progress)

  module _ (inner : ℕ) (body : StatusBody T) where
    -- The rest of an iteration of `next` after its call of `progress`.
    abbrev resume :
        ℕ
        → Option (Outcome (Scheduler R N) (Progressed R))
        → Option (Outcome (Scheduler R N) (Resolved R N t))
    resume outer o = elim o [
      | none ↦ none
      | some panics ↦ some panics
      | some (returns s' result) ↦ elim (handle_result handle s' result) [
        | continues s'' ↦ next inner outer handle s''
        | return s'' resolved ↦ some (returns s'' resolved)
        | panic ↦ some panics
      ]
    ]

    finish_own :
        (s : Scheduler R N) (v : R.Output (R.output_type t))
        → handle_result handle s (own_result handle v) ≡ return s (ok v)
    unfolding handle_result
    finish_own s v = ap (after_resolve s) (resolve_own t handle v)

    resume-return :
        (outer : ℕ) (s : Scheduler R N) (r : Progressed R) (v : Resolved R N t)
        → handle_result handle s r ≡ return s v
        → resume outer (some (returns s r)) ≡ some (returns s v)
    resume-return outer s r v e = rw (e, resume)

    resume_session :
        (ds : List (Data T)) (c : N.Client) (self : (R.task t).Self) (k outer : ℕ)
        → Emits N c (events tag ds body)
        → length ds < k
        → length ds < inner
        → length ds ≤ outer
        → (c' : N.Client) × (resume outer (progress k (running c self))
            ≡ some (returns (idle c') (ok (outcome R t self ds body))))
    unfolding next handle_result feed process_tagged
    resume_session ds c self zero outer e hk hi ho = absurd (omega arith)
    resume_session [] c self (suc k) outer e hk hi ho = (
      (N.next c).1,
      rw
          (progress-return k (running c self)
            (step-ok c self _ e.0 ∙ complete_single (N.next c).1 self body))
          (resume-return outer (idle (N.next c).1) (own_result handle (outcome R t self [] body)) _
            (finish_own (idle (N.next c).1) (outcome R t self [] body))),
    )
    resume_session (d ∷ ds) c self (suc k) zero e hk hi ho = absurd (omega arith)
    resume_session (d ∷ ds) c self (suc k) (suc outer) e hk hi ho =
        let self' = ((R.task t).process_data self d).1 in
        let offered = step-ok c self _ e.0 ∙ offer_single (N.next c).1 self d in
        elim (Option-cases ((R.task t).process_data self d).0) [
          | inl kept ↦
              rw
                (progress-continues k (running c self) {s' = running (N.next c).1 self'}
                  (offered ∙ rw kept))
                (resume_session ds (N.next c).1 self' k (suc outer) e.1 (omega arith) (omega arith)
                  (omega arith))
          | inr (d', back) ↦
              rw
                (progress-return k (running c self) {s' = running (N.next c).1 self'}
                  {r = ok (SchedulerEvent.unsolicited (Response.data_response d'))}
                  (offered ∙ rw back))
                (resume_session ds (N.next c).1 self' inner outer e.1 (omega arith) (omega arith)
                  (omega arith))
        ]

  -- A resolving task whose command was sent, and which is the only active task, returns its own
  -- output: if the client produces any data and then the tagged status of its command, `next`
  -- returns what the task makes of that status after it was offered all the data, and no task is
  -- active any more. It needs more fuel than there are data.
  pub next_session :
      (inner outer : ℕ) (self : (R.task t).Self) (ds : List (Data T)) (body : StatusBody T)
      (c : N.Client)
      → Emits N c (events tag ds body)
      → length ds < inner
      → length ds < outer
      → (c' : N.Client) × (next inner outer handle (running c self)
          ≡ some (returns (idle c') (ok (outcome R t self ds body))))
  unfolding next
  next_session inner zero self ds body c e hi ho = absurd (omega arith)
  next_session inner (suc outer) self ds body c e hi ho =
      resume_session inner body ds c self inner outer e (omega arith) (omega arith) (omega arith)
