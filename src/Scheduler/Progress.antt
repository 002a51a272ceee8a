-- ===== src/Scheduler/Progress.antt =====
-- The operations of `Scheduler` in src/tasks/mod.rs.
use imap_client.Prelude.{
  ℕ, zero, suc, Bool, false, Option, none, some, List, [], ◌∷◌, Result, ok, err, if◌then◌else◌,
}
use imap_client.Prelude.Bytes.{bytes, split, eq_ignore_ascii_case}
use imap_client.Imap.{
  ImapTypes, CommandBody, Interrupt, io, error, Error, Event, Status, StatusBody, Tagged, Response,
  CommandContinuationRequest, AuthenticateData,
}
use imap_client.Task.{
  Registry, TaskAny, process_data, process_untagged, process_continuation_request,
  process_continuation_request_authenticate, process_bye, process_tagged,
}
use imap_client.Scheduler.ClientNext.{ClientNext}
use imap_client.Scheduler.TaskMap.{
  Entry, push_back, remove_by_handle, remove_by_tag, update_task_by_handle, with_task,
}
use imap_client.Scheduler.Trickle.{trickle_down}
use imap_client.Scheduler.State.{
  flow, unexpected_tagged_response, SchedulerEvent, TaskHandle, Scheduler, Progressed, Outcome,
  returns, panics,
}

-- How the body of the loop of `progress` ends.
pub data Flow (S A : Type 0) : Type 0 where
  continues : S → Flow S A
  return : S → A → Flow S A
  panic : Flow S A

-- The third word of a malformed message is FETCH.
pub is_fetch : List ℕ → Bool
is_fetch discarded_bytes = elim (split b' ' discarded_bytes) [
  | _ ∷ _ ∷ cmd ∷ _ ↦ eq_ignore_ascii_case cmd (bytes "FETCH")
  | _ ↦ false
]

module _ {T : ImapTypes} {R : Registry T} where
  -- A method of the task, called on its entry.
  abbrev pub on_entry :
      {A : Type 0} → (TaskAny R → A → Option A × TaskAny R) → Entry R → A → Option A × Entry R
  on_entry f entry a = with_task entry (f entry.task a)

module _ {T : ImapTypes} {R : Registry T} {N : ClientNext T} where
  unfoldable pub new : N.Client → N.TagGenerator → Scheduler R N
  new client_next tag_generator = record {
    client_next = client_next;
    waiting_tasks = [];
    active_tasks = [];
    tag_generator = tag_generator;
  }

  abbrev queue_command :
      (s : Scheduler R N) (t : R.TaskType)
      → (R.task t).Self
      → T.Tag × N.TagGenerator
      → CommandBody T
      → Scheduler R N × TaskHandle R t
  queue_command s t self (tag, tag_generator) body =
      let (handle, client_next) =
        N.enqueue_command s.client_next (record { tag = tag; body = body }) in
      let task : TaskAny R = record { type = t; self = self } in
      (
        record s {
          client_next = client_next;
          waiting_tasks = push_back s.waiting_tasks handle tag task;
          tag_generator = tag_generator;
        },
        record { handle = handle },
      )

  -- `panics` where `command_body` does; the tag is drawn before it.
  unfoldable pub enqueue_task :
      Scheduler R N → (t : R.TaskType) → (R.task t).Self → Outcome (Scheduler R N) (TaskHandle R t)
  enqueue_task s t self = elim ((R.task t).command_body self) [
    | none ↦ panics
    | some body ↦
        let (s', handle) = queue_command s t self (N.generate s.tag_generator) body in
        returns s' handle
  ]

  unfoldable pub enqueue_input : Scheduler R N → List ℕ → Scheduler R N
  enqueue_input s bytes = record s { client_next = N.enqueue_input s.client_next bytes }

  abbrev unsolicited : Scheduler R N → Response T → Flow (Scheduler R N) (Progressed R)
  unsolicited s response = return s (ok (SchedulerEvent.unsolicited response))

  -- A task goes from waiting to active: the command is sent.
  unfoldable pub activate : Scheduler R N → T.CommandHandle → Flow (Scheduler R N) (Progressed R)
  activate s handle = elim (remove_by_handle s.waiting_tasks handle) [
    | none ↦ panic
    | some (entry, waiting_tasks) ↦ continues (record s {
      waiting_tasks = waiting_tasks;
      active_tasks = push_back s.active_tasks entry.handle entry.tag entry.task;
    })
  ]

  abbrev finished :
      Scheduler R N → T.CommandHandle → Entry R → StatusBody T → Flow (Scheduler R N) (Progressed R)
  finished s handle entry body = return s (
      ok (
        SchedulerEvent.task_finished
          (record { handle = handle; output = some (process_tagged R entry.task body) })))

  -- A task is completed by a status that belongs to its handle. Any other status is unreachable.
  unfoldable pub finish :
      Scheduler R N → T.CommandHandle → Status T → Flow (Scheduler R N) (Progressed R)
  finish s handle (Status.tagged tagged) = elim (remove_by_handle s.active_tasks handle) [
    | none ↦ panic
    | some (entry, active_tasks) ↦
        finished (record s { active_tasks = active_tasks }) handle entry tagged.body
  ]
  finish s handle _ = panic

  -- A response along the active tasks; what is left of it is unsolicited.
  unfoldable pub offer :
      {A : Type 0}
      → Scheduler R N
      → A
      → (TaskAny R → A → Option A × TaskAny R)
      → (A → Response T)
      → Flow (Scheduler R N) (Progressed R)
  offer s a f response =
      let (rest, active_tasks) = trickle_down a s.active_tasks (on_entry f) in
      let s' = record s { active_tasks = active_tasks } in
      elim rest [ none ↦ continues s' | some a' ↦ unsolicited s' (response a') ]

  -- The data of a continuation during AUTHENTICATE.
  abbrev pub authenticate_with :
      Scheduler R N
      → Result (AuthenticateData T) (CommandContinuationRequest T)
      → Flow (Scheduler R N) (Progressed R)
  authenticate_with s (ok answer) = elim (N.set_authenticate_data s.client_next answer) [
    | none ↦ panic
    | some client_next ↦ continues (record s { client_next = client_next })
  ]
  authenticate_with s (err continuation) =
      unsolicited s (Response.command_continuation_request continuation)

  unfoldable pub authenticate_continue :
      Scheduler R N
      → T.CommandHandle
      → CommandContinuationRequest T
      → Flow (Scheduler R N) (Progressed R)
  authenticate_continue s handle continuation_request =
      elim (update_task_by_handle s.active_tasks handle
        (λ task. process_continuation_request_authenticate R task continuation_request)) [
          | none ↦ panic
          | some (continuation, active_tasks) ↦
              authenticate_with (record s { active_tasks = active_tasks }) continuation
        ]

  -- A tagged status completes the active task of its tag.
  unfoldable pub complete : Scheduler R N → Tagged T → Flow (Scheduler R N) (Progressed R)
  complete s tagged = elim (remove_by_tag s.active_tasks tagged.tag) [
    | none ↦ return s (err (error (unexpected_tagged_response tagged)))
    | some (entry, active_tasks) ↦
        finished (record s { active_tasks = active_tasks }) entry.handle entry tagged.body
  ]

  -- The `match event` of `progress`.
  unfoldable pub handle_event : Scheduler R N → Event T → Flow (Scheduler R N) (Progressed R)
  handle_event s (Event.greeting_received greeting) =
      return s (ok (SchedulerEvent.greeting_received greeting))
  handle_event s (Event.command_sent handle) = activate s handle
  handle_event s (Event.command_rejected handle status) = finish s handle status
  handle_event s (Event.authenticate_started handle) = activate s handle
  handle_event s (Event.authenticate_continuation_request_received handle continuation_request) =
      authenticate_continue s handle continuation_request
  handle_event s (Event.authenticate_status_received handle status) = finish s handle status
  handle_event s (Event.data_received d) = offer s d (process_data R) Response.data_response
  handle_event s (Event.continuation_request_received continuation_request) =
      offer s continuation_request (process_continuation_request R)
        Response.command_continuation_request
  handle_event s (Event.status_received (Status.untagged body)) =
      offer s body (process_untagged R) (λ b. Response.status (Status.untagged b))
  handle_event s (Event.status_received (Status.bye bye)) =
      offer s bye (process_bye R) (λ b. Response.status (Status.bye b))
  handle_event s (Event.status_received (Status.tagged tagged)) = complete s tagged
  handle_event s (Event.idle_command_sent handle) = activate s handle
  handle_event s (Event.idle_accepted handle) = continues s
  handle_event s (Event.idle_rejected handle status) = finish s handle status
  handle_event s (Event.idle_done_sent handle) = continues s

  -- An error of the client: malformed FETCH responses are skipped.
  abbrev pub skip_or_fail : Scheduler R N → Error T → Flow (Scheduler R N) (Progressed R)
  skip_or_fail s (Error.malformed_message discarded_bytes) =
      if is_fetch discarded_bytes
      then continues s
      else return s (err (error (flow (Error.malformed_message discarded_bytes))))
  skip_or_fail s e = return s (err (error (flow e)))

  unfoldable pub handle_next :
      Scheduler R N → Result (Event T) (Interrupt (Error T)) → Flow (Scheduler R N) (Progressed R)
  unfolding is_fetch
  handle_next s (ok event) = handle_event s event
  handle_next s (err (io i)) = return s (err (io i))
  handle_next s (err (error e)) = skip_or_fail s e

  -- The body of the loop.
  unfoldable pub step : Scheduler R N → Flow (Scheduler R N) (Progressed R)
  step s =
      let (result, client_next) = N.next s.client_next in
      handle_next (record s { client_next = client_next }) result

  -- The loop, on fuel: `none` where that runs out.
  unfoldable pub progress : ℕ → Scheduler R N → Option (Outcome (Scheduler R N) (Progressed R))
  progress zero s = none
  progress (suc fuel) s = elim (step s) [
    | continues s' ↦ progress fuel s'
    | return s' result ↦ some (returns s' result)
    | panic ↦ some panics
  ]
