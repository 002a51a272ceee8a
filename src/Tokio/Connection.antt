-- ===== src/Tokio/Connection.antt =====
-- The connection of a client of src/client/tokio.rs: a socket under `Stream::next`, which drives the
-- resolver. It fills `Environment`.
pub mod Wire
use imap_client.Prelude.{ℕ, Option, none, some, List, Result, ok, err}
use imap_client.Prelude.HashMap.{Iteration}
use imap_client.Imap.{ImapTypes, Interrupt, MessageDataItemName}
use imap_client.Task.{Registry}
use imap_client.Scheduler.ClientNext.{ClientNext}
use imap_client.Scheduler.State.{
  Scheduler, SchedulerEvent, SchedulerError, Progressed, Outcome, returns, panics,
}
use imap_client.Scheduler.Progress.{progress, enqueue_input}
use imap_client.Resolver.{
  Resolver, ResolvingTask, Resolved, resolve_task, enqueue_input_resolver, enqueue_input_task,
}
use imap_client.Resolver
use imap_client.Tasks.Library.{library}
use imap_client.Tokio.Api.{Environment}
use imap_client.Stream
use imap_client.Stream.{State, Socket, Failure}

-- A state whose `next` may panic or run out of fuel says so by an event.
pub data Verdict (A : Type 0) : Type 0 where
  value : A → Verdict A
  panicked exhausted : Verdict A

abbrev pub told : {A E : Type 0} → Result A E → Result (Verdict A) E
told (ok a) = ok (value a)
told (err e) = err e

-- What `next` returns, for a state that is made of a scheduler.
abbrev pub verdict :
    {S S' A E : Type 0}
    → (S → S')
    → S'
    → Option (Outcome S (Result A E))
    → Result (Verdict A) E × S'
verdict f s none = (ok exhausted, s)
verdict f s (some panics) = (ok panicked, s)
verdict f s (some (returns s' result)) = (told result, f s')

-- The verdict of a stream: `none` where the state panicked or ran out of fuel.
abbrev pub judged :
    {A E S S' K : Type 0}
    → (S → S')
    → Option (Result (Verdict A) E × K × S)
    → Option (Result A E × (S' × K))
judged f none = none
judged f (some (ok (value a), k, s)) = some (ok a, (f s, k))
judged f (some (ok panicked, k, s)) = none
judged f (some (ok exhausted, k, s)) = none
judged f (some (err e, k, s)) = some (err e, (f s, k))

module _ {T : ImapTypes} (R : Registry T) (N : ClientNext T) (inner outer : ℕ) where
  abbrev pub with_scheduler : Scheduler R N → Resolver R N
  with_scheduler scheduler = record { scheduler = scheduler }

  -- `impl State for Scheduler`
  abbrev scheduler_state : State
  scheduler_state = record {
    Self = Scheduler R N;
    Event = Verdict (SchedulerEvent R);
    Error = SchedulerError T;
    enqueue_input = enqueue_input;
    next = λ self. verdict (λ self'. self') self (progress inner self);
  }

  -- `impl State for Resolver`
  abbrev pub resolver_state : State
  resolver_state = record {
    Self = Resolver R N;
    Event = Verdict (SchedulerEvent R);
    Error = SchedulerError T;
    enqueue_input = enqueue_input_resolver;
    next = λ self. verdict with_scheduler self (progress inner self.scheduler);
  }

  abbrev pub resolving :
      {t : R.TaskType} → ResolvingTask R N t → Scheduler R N → ResolvingTask R N t
  resolving self scheduler = record self { resolver = record { scheduler = scheduler } }

  -- `impl State for ResolvingTask`
  abbrev pub task_state : R.TaskType → State
  task_state t = record {
    Self = ResolvingTask R N t;
    Event = Verdict (R.Output (R.output_type t));
    Error = SchedulerError T;
    enqueue_input = enqueue_input_task;
    next = λ self.
        verdict (resolving self) self
          (Resolver.next inner outer self.handle self.resolver.scheduler);
  }

  module _ (K : Socket) (fuel : ℕ) where
    abbrev pub StreamError : Type 0
    StreamError = Stream.Error K.IoError (SchedulerError T)

    -- `stream.next(resolver.resolve(task))`, from what `resolve` returns.
    abbrev pub run_resolving :
        (t : R.TaskType)
        → K.S
        → Outcome (ResolvingTask R N t) (Unit {0})
        → Option (Result (R.Output (R.output_type t)) StreamError × (Resolver R N × K.S))
    run_resolving t stream panics = none
    run_resolving t stream (returns self _) =
        judged (λ self'. self'.resolver) (Stream.next (task_state t) K fuel stream self)

    abbrev pub resolve_on :
        (t : R.TaskType)
        → (R.task t).Self
        → Resolver R N
        → K.S
        → Option (Result (R.Output (R.output_type t)) StreamError × (Resolver R N × K.S))
    resolve_on t task resolver stream = run_resolving t stream (resolve_task resolver t task)

    -- `stream.next(resolver)`
    abbrev pub next_on :
        Resolver R N → K.S → Option (Result (SchedulerEvent R) StreamError × (Resolver R N × K.S))
    next_on resolver stream =
        judged (λ self'. self') (Stream.next resolver_state K fuel stream resolver)

-- The environment `E` with this connection in place of its own.
abbrev pub on_connection :
    (E : Environment) → ClientNext E.T → Socket → (inner outer fuel : ℕ) → Environment
on_connection E N K inner outer fuel = record {
  I = E.I;
  T = E.T;
  Resolver = Resolver (library E.I E.T) N;
  Stream = K.S;
  StreamError = StreamError (library E.I E.T) N inner outer K fuel;
  ValidationError = E.ValidationError;
  IoError = E.IoError;
  TlsError = E.TlsError;
  PemError = E.PemError;
  PathBuf = E.PathBuf;
  resolve_task = resolve_on (library E.I E.T) N inner outer K fuel;
  next_event = next_on (library E.I E.T) N inner outer K fuel;
  literal_validate = E.literal_validate;
  literal_unvalidated = E.literal_unvalidated;
  expand = E.expand;
  sequence_set_try_from = E.sequence_set_try_from;
  sequence_set_try_from_one = E.sequence_set_try_from_one;
}
