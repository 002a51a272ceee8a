-- ===== src/Examples/Sessions.antt =====
-- The theorems on the scheduler and the resolver at concrete sessions.
use mathlib.Core.List.{Perm, Nodup-cons, Nodup-nil, not-mem-nil, mem-cons_self}
use imap_client.Prelude.{
  ℕ_discrete, none, some, List, [], ◌∷◌, ◌++◌, ◌≡◌, refl, length, Result, ok, err, ◌↔◌, arith, ◌<◌,
}
use imap_client.Imap.{Event, Interrupt, Error, io, need_more_input, Status, Data, Response}
use imap_client.Task.{process_data, process_tagged}
use imap_client.Tasks.Library.{TaskType, OutputType}
use imap_client.Tasks.Expunge
use imap_client.Tasks.NoOp
use imap_client.Scheduler.TaskMap.{Entry, push_back, remove_by_handle, remove_by_tag}
use imap_client.Scheduler.Trickle.{trickle_down}
use imap_client.Prelude.Deque.{remove_first, remove_at, position}
use imap_client.Task.Feed.{feed}
use imap_client.Scheduler.State.{
  Scheduler, SchedulerEvent, TaskHandle, Outcome, returns, Progressed, resolve,
}
use imap_client.Scheduler.Progress.{
  new, on_entry, enqueue_task, handle_event, progress, complete, finish, offer, step, handle_next,
  activate, continues, panic,
}
use imap_client.Scheduler.Conservation.{Promise, promises}
use imap_client.Scheduler.Lifetime.{History, history-perm}
use imap_client.Scheduler.Typing.{progress-Resolves, Resolves}
use imap_client.Scheduler.Safety.{handle_event-panics, PanicsOn}
use imap_client.Scheduler.Routing.{offer_routes, complete_by_tag, Completes, Declines}
use imap_client.Scheduler.Termination.{Drains, progress_total}
use imap_client.Resolver.{next}
use imap_client.Resolver.Session.{next_session, events, outcome, Emits}
use imap_client.Examples.{T₀, all_tasks, Script, scripted, plays, done}

abbrev expunge_task : (Expunge.task T₀).Self
unfolding Expunge.task
expunge_task = Expunge.new

abbrev first : TaskHandle all_tasks TaskType.expunge
first = record { handle = 0 }

abbrev rest_of_session : List (Result (Event T₀) (Interrupt (Error T₀)))
rest_of_session =
    ok (Event.data_received (Data.expunge 3))
    ∷ ok (Event.data_received (Data.exists 7))
    ∷ ok (Event.status_received (Status.tagged (record { tag = 5; body = done })))
    ∷ []

-- An EXPUNGE whose command is sent, which is told of two messages and completed.
abbrev session : Script
session = plays (ok (Event.command_sent 0) ∷ rest_of_session)

abbrev idle : Scheduler all_tasks scripted
idle = record { client_next = session; waiting_tasks = []; active_tasks = []; tag_generator = 5 }

abbrev entry : Entry all_tasks
entry = record {
  handle = 0;
  tag = 5;
  task = record { type = TaskType.expunge; self = expunge_task };
}

abbrev queued : Scheduler all_tasks scripted
queued = record {
  client_next = record session { next_handle = 1 };
  waiting_tasks = entry ∷ [];
  active_tasks = [];
  tag_generator = 6;
}

-- `Expunge.task` and all that the scheduler does.
opened : Unit {0}
unfolding ℕ_discrete Expunge.task Expunge.new Expunge.command_body Expunge.process_data
    Expunge.process_tagged enqueue_task handle_event progress step handle_next activate offer
    complete finish push_back remove_by_handle remove_by_tag remove_first remove_at position
    trickle_down process_data process_tagged resolve feed new
opened = tt

enqueued_first : enqueue_task idle TaskType.expunge expunge_task ≡ returns queued first
unfolding opened
enqueued_first = refl

-- The scheduler when EXISTS is handed back.
abbrev expunged : Entry all_tasks
unfolding Expunge.task
expunged = record {
  handle = 0;
  tag = 5;
  task = record { type = TaskType.expunge; self = record { output = 3 ∷ [] } };
}

abbrev running : Scheduler all_tasks scripted
running = record {
  client_next = record {
    next_handle = 1;
    script = ok (Event.status_received (Status.tagged (record { tag = 5; body = done }))) ∷ [];
  };
  waiting_tasks = [];
  active_tasks = expunged ∷ [];
  tag_generator = 6;
}

abbrev exists_back : Progressed all_tasks
exists_back = ok (SchedulerEvent.unsolicited (Response.data_response (Data.exists 7)))

progressed_first : progress 9 queued ≡ some (returns running exists_back)
unfolding opened
progressed_first = refl

abbrev finished : Scheduler all_tasks scripted
finished = record {
  client_next = record { next_handle = 1; script = [] };
  waiting_tasks = [];
  active_tasks = [];
  tag_generator = 6;
}

abbrev completion : Progressed all_tasks
completion = ok (
    SchedulerEvent.task_finished
      (record { handle = 0; output = some (process_tagged all_tasks expunged.task done) }))

progressed_second : progress 9 running ≡ some (returns finished completion)
unfolding opened
progressed_second = refl

started : History session 5 [] [] idle
unfolding new
started = History.start

-- What was enqueued and finished.
abbrev expunges : List (Promise all_tasks)
expunges = (0, some OutputType.numbers) ∷ []

-- Enqueued, and run until EXISTS is handed back.
earlier : History session 5 expunges [] running
earlier =
    History.progressed (History.enqueued started TaskType.expunge expunge_task first enqueued_first)
      9 exists_back progressed_first

-- Run to the completion.
life : History session 5 expunges expunges finished
unfolding process_tagged expunged
life = History.progressed earlier 9 completion progressed_second

progress-Resolves_example :
    Resolves first
      (record { handle = 0; output = some (process_tagged all_tasks expunged.task done) })
progress-Resolves_example =
    progress-Resolves earlier (Nodup-cons.1 (not-mem-nil, Nodup-nil)) 9 _ progressed_second first
      mem-cons_self

history-perm_example : Perm expunges (expunges ++ promises finished)
history-perm_example = history-perm life

-- A command is sent that no task waits for.
handle_event-panics_example :
    (handle_event running (Event.command_sent 1) ≡ panic) ↔ PanicsOn running (Event.command_sent 1)
handle_event-panics_example = handle_event-panics running (Event.command_sent 1)

complete_by_tag_example :
    Completes running
      (record { tag = 5; body = done })
      (complete running (record { tag = 5; body = done }))
complete_by_tag_example = complete_by_tag running (record { tag = 5; body = done })

-- Before it, a completed-to-be task that declines EXPUNGE; behind it, another one.
abbrev no_op_entry : Entry all_tasks
unfolding NoOp.task
no_op_entry = record {
  handle = 9;
  tag = 8;
  task = record { type = TaskType.no_op; self = record {} };
}

abbrev three : Scheduler all_tasks scripted
three = record running { active_tasks = no_op_entry ∷ entry ∷ expunged ∷ [] }

Declines-expunge : Declines (on_entry (process_data all_tasks)) (Data.expunge 3) no_op_entry
unfolding opened NoOp.task
Declines-expunge = refl

keeps_expunge : process_data all_tasks entry.task (Data.expunge 3) ≡ (none, expunged.task)
unfolding opened
keeps_expunge = refl

offer_routes_example :
    offer three (Data.expunge 3) (process_data all_tasks) Response.data_response
    ≡ continues (record three { active_tasks = no_op_entry ∷ expunged ∷ expunged ∷ [] })
unfolding expunged
offer_routes_example =
    (offer_routes three (Data.expunge 3) (process_data all_tasks) Response.data_response).1
      (no_op_entry ∷ []) entry (expunged ∷ []) expunged.task refl (Declines-expunge, tt)
      keeps_expunge

next_shorter :
    (c : Script)
    → ¬ ((scripted.next c).0 ≡ err (io need_more_input))
    → length (scripted.next c).1.script < length c.script
next_shorter c h = ground arith

abbrev drains : Drains scripted
drains = record {
  pending = λ c. length c.script;
  next_event = λ c e h. next_shorter c (λ p. cc);
  next_malformed = λ c e h. next_shorter c (λ p. cc);
  set_data = λ c c' a e. ground arith;
}

progress_total_example :
    (o : Outcome (Scheduler all_tasks scripted) (Progressed all_tasks)) × (progress 9 queued
      ≡ some o)
progress_total_example = progress_total drains 9 queued (omega arith)

emitted :
    Emits scripted (plays rest_of_session) (events 5 (Data.expunge 3 ∷ Data.exists 7 ∷ []) done)
emitted = (refl, (refl, (refl, tt)))

next_session_example :
    (c' : Script) × (next {N = scripted} 9 9 first (record {
      client_next = plays rest_of_session;
      waiting_tasks = [];
      active_tasks = entry ∷ [];
      tag_generator = 6;
    })
      ≡ some (
          returns
            (record { client_next = c'; waiting_tasks = []; active_tasks = []; tag_generator = 6 })
            (ok (
              outcome all_tasks TaskType.expunge expunge_task
                (Data.expunge 3 ∷ Data.exists 7 ∷ [])
                done))))
next_session_example =
    next_session TaskType.expunge first 5 [] 6 9 9 expunge_task
      (Data.expunge 3 ∷ Data.exists 7 ∷ []) done (plays rest_of_session) emitted (omega arith)
      (omega arith)
