-- ===== src/Scheduler/State.antt =====
-- The data types of the scheduler in src/tasks/mod.rs, and `TaskHandle` with its `resolve`.
use imap_client.Prelude.{Bool, true, false, Option, none, some, Result, ite}
use imap_client.Imap.{ImapTypes, Interrupt, Error, Greeting, Response, Tagged, Bye}
use imap_client.Task.{Registry, Any, downcast}
use imap_client.Scheduler.ClientNext.{ClientNext}
use imap_client.Scheduler.TaskMap.{TaskMap}

pub data SchedulerError (T : ImapTypes) : Type 0 where
  flow : Error T → SchedulerError T
  unexpected_tagged_response : Tagged T → SchedulerError T
  unexpected_bye_response : Bye T → SchedulerError T

module _ {T : ImapTypes} (R : Registry T) where
  pub record TaskToken : Type 0 where
    pub handle : T.CommandHandle
    pub output : Option (Any R)

  pub data SchedulerEvent : Type 0 where
    greeting_received : Greeting T → SchedulerEvent
    task_finished : TaskToken → SchedulerEvent
    unsolicited : Response T → SchedulerEvent

  -- `TaskHandle<T>`, where `type` stands for the type parameter.
  pub record TaskHandle (type : R.TaskType) : Type 0 where
    pub handle : T.CommandHandle

  pub record Scheduler (N : ClientNext T) : Type 0 where
    pub client_next : N.Client
    pub waiting_tasks : TaskMap R
    pub active_tasks : TaskMap R
    pub tag_generator : N.TagGenerator

  -- What `progress` returns.
  abbrev pub Progressed : Type 0
  Progressed = Result SchedulerEvent (Interrupt (SchedulerError T))

-- How an operation that may panic ends.
pub data Outcome (S A : Type 0) : Type 0 where
  returns : S → A → Outcome S A
  panics : Outcome S A

module _ {T : ImapTypes} {R : Registry T} where
  -- The inner outcome of `TaskHandle::resolve`: `panics` where `downcast(..).unwrap()` does.
  abbrev pub downcast_output :
      (t : R.TaskType)
      → TaskToken R
      → Any R
      → Outcome (TaskToken R) (Option (R.Output (R.output_type t)))
  downcast_output t token output = elim (downcast R (R.output_type t) output) [
    | none ↦ panics
    | some value ↦ returns (record token { output = none }) (some value)
  ]

  -- The token comes back, with its output taken if the handle is that of the token.
  unfoldable pub resolve :
      {t : R.TaskType}
      → TaskHandle R t
      → TaskToken R
      → Outcome (TaskToken R) (Option (R.Output (R.output_type t)))
  resolve {t} self token =
      ite (T.handle_discrete token.handle self.handle)
        (elim token.output [
          | none ↦ returns token none
          | some output ↦ downcast_output t token output
        ])
        (returns token none)

  -- `==`
  abbrev eq : {t : R.TaskType} → TaskHandle R t → TaskHandle R t → Bool
  eq self other = ite (T.handle_discrete self.handle other.handle) true false
