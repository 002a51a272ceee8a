-- ===== src/Resolver.antt =====
-- src/tasks/resolver.rs: a scheduler for one task at a time.
pub mod Session
use imap_client.Prelude.{ℕ, zero, suc, Option, none, some, List, ◌≡◌, Result, ok, err}
use imap_client.Imap.{ImapTypes, Interrupt, error, Response, Status}
use imap_client.Task.{Registry}
use imap_client.Scheduler.ClientNext.{ClientNext}
use imap_client.Scheduler.State.{
  Scheduler, SchedulerEvent, SchedulerError, unexpected_bye_response, TaskHandle, TaskToken,
  Progressed, Outcome, returns, panics, resolve,
}
use imap_client.Scheduler.Progress
use imap_client.Scheduler.Progress.{
  Flow, continues, return, panic, enqueue_task, enqueue_input, progress,
}

module _ {T : ImapTypes} (R : Registry T) (N : ClientNext T) where
  pub record Resolver : Type 0 where
    pub scheduler : Scheduler R N

  -- The resolver is borrowed for the time of the task.
  pub record ResolvingTask (t : R.TaskType) : Type 0 where
    pub resolver : Resolver
    pub handle : TaskHandle R t

  -- What `next` of a resolving task returns.
  abbrev pub Resolved : R.TaskType → Type 0
  Resolved t = Result (R.Output (R.output_type t)) (Interrupt (SchedulerError T))

module _ {T : ImapTypes} {R : Registry T} {N : ClientNext T} where
  unfoldable pub new : N.Client → N.TagGenerator → Resolver R N
  new client_next tag_generator = record { scheduler = Progress.new client_next tag_generator }

  -- `Resolver::resolve`
  unfoldable pub resolve_task :
      Resolver R N → (t : R.TaskType) → (R.task t).Self → Outcome (ResolvingTask R N t) (Unit {0})
  resolve_task self t task = elim (enqueue_task self.scheduler t task) [
    | returns scheduler handle ↦
        returns (record { resolver = record { scheduler = scheduler }; handle = handle }) tt
    | panics ↦ panics
  ]

  -- `State::enqueue_input` of the resolver, and of the resolving task
  unfoldable pub enqueue_input_resolver : Resolver R N → List ℕ → Resolver R N
  enqueue_input_resolver self bytes = record { scheduler = enqueue_input self.scheduler bytes }

  module _ {t : R.TaskType} where
    unfoldable pub enqueue_input_task : ResolvingTask R N t → List ℕ → ResolvingTask R N t
    unfolding enqueue_input_resolver
    enqueue_input_task self bytes = record self {
      resolver = enqueue_input_resolver self.resolver bytes;
    }

    -- The branch of a finished task: `panic` where `resolve` panics.
    abbrev pub after_resolve :
        Scheduler R N
        → Outcome (TaskToken R) (Option (R.Output (R.output_type t)))
        → Flow (Scheduler R N) (Resolved R N t)
    after_resolve s (returns token (some output)) = return s (ok output)
    after_resolve s (returns token none) = continues s
    after_resolve s panics = panic

    -- The body of the loop of `next`, from what the scheduler returns.
    unfoldable pub handle_result :
        TaskHandle R t → Scheduler R N → Progressed R → Flow (Scheduler R N) (Resolved R N t)
    handle_result handle s (err interrupt) = return s (err interrupt)
    handle_result handle s (ok (SchedulerEvent.greeting_received greeting)) = continues s
    handle_result handle s (ok (SchedulerEvent.task_finished token)) =
        after_resolve s (resolve handle token)
    handle_result handle s (ok (SchedulerEvent.unsolicited (Response.status (Status.bye bye)))) =
        return s (err (error (unexpected_bye_response bye)))
    handle_result handle s (ok (SchedulerEvent.unsolicited _)) = continues s

    -- The loop on fuel, and fuel for each of its calls of `progress`; `none` where that runs out.
    unfoldable pub next :
        (inner outer : ℕ)
        → TaskHandle R t
        → Scheduler R N
        → Option (Outcome (Scheduler R N) (Resolved R N t))
    next inner zero handle s = none
    next inner (suc outer) handle s = elim (progress inner s) [
      | none ↦ none
      | some panics ↦ some panics
      | some (returns s' result) ↦ elim (handle_result handle s' result) [
        | continues s'' ↦ next inner outer handle s''
        | return s'' resolved ↦ some (returns s'' resolved)
        | panic ↦ some panics
      ]
    ]
