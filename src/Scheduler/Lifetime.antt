-- ===== src/Scheduler/Lifetime.antt =====
-- The whole life of a `Scheduler` of src/tasks/mod.rs: what was enqueued is finished or still held.
use mathlib.Core.List.{Perm, perm_middle, perm_append_comm, map-append}
use mathlib.Core.List.Perm
use imap_client.Prelude.{ℕ, some, List, [], ◌∷◌, ◌++◌, ◌≡◌, subst, arith, append_assoc}
use imap_client.Imap.{ImapTypes}
use imap_client.Task.{Registry}
use imap_client.Scheduler.ClientNext.{ClientNext}
use imap_client.Scheduler.TaskMap.{push_back}
use imap_client.Scheduler.State.{Scheduler, TaskHandle, Progressed, returns}
use imap_client.Scheduler.Progress.{new, enqueue_task, enqueue_input, progress}
use imap_client.Scheduler.Conservation.{
  Promise, promise, promises_of, promises, released, Releases, progress-Conserves,
}

module _ {T : ImapTypes} {R : Registry T} where
  -- What a handle that was given out stands for.
  abbrev pub issued : {t : R.TaskType} → TaskHandle R t → Promise R
  issued {t} h = (h.handle, some (R.output_type t))

module _ {T : ImapTypes} {R : Registry T} {N : ClientNext T} where
  -- A life of a scheduler up to now: the handles that were given out, with the types of the
  -- outputs of their tasks; those of the tasks that were reported as finished, with the types of
  -- the outputs that came with them; and the scheduler.
  pub data History (client_next : N.Client) (tags : N.TagGenerator)
      : List (Promise R) → List (Promise R) → Scheduler R N → Type 0 where
    start : History client_next tags [] [] (new client_next tags)
    enqueued :
        {es fs : List (Promise R)} {s s' : Scheduler R N}
        → History client_next tags es fs s
        → (t : R.TaskType) (self : (R.task t).Self) (h : TaskHandle R t)
        → enqueue_task s t self ≡ returns s' h
        → History client_next tags (issued h ∷ es) fs s'
    fed :
        {es fs : List (Promise R)} {s : Scheduler R N}
        → History client_next tags es fs s
        → (bytes : List ℕ) → History client_next tags es fs (enqueue_input s bytes)
    progressed :
        {es fs : List (Promise R)} {s s' : Scheduler R N}
        → History client_next tags es fs s
        → (fuel : ℕ) (r : Progressed R) → progress fuel s ≡ some (returns s' r)
        → History client_next tags es (released r ++ fs) s'

  enqueue_task-promises :
      (s s' : Scheduler R N) (t : R.TaskType) (self : (R.task t).Self) (h : TaskHandle R t)
      → enqueue_task s t self ≡ returns s' h
      → (promises_of s'.waiting_tasks ≡ promises_of s.waiting_tasks ++ issued h ∷ [])
        × (s'.active_tasks ≡ s.active_tasks)
  unfolding enqueue_task push_back
  enqueue_task-promises s s' t self h e = ground (
    arith,
    map-append promise s.waiting_tasks (
        record {
          handle = h.handle;
          tag = (N.generate s.tag_generator).0;
          task = record { type = t; self = self };
        }
        ∷ []),
  )

  enqueue_task-perm :
      (s s' : Scheduler R N) (t : R.TaskType) (self : (R.task t).Self) (h : TaskHandle R t)
      → enqueue_task s t self ≡ returns s' h
      → Perm (issued h ∷ promises s) (promises s')
  enqueue_task-perm s s' t self h e =
      let (waiting, active) = enqueue_task-promises s s' t self h e in
      rw (waiting, active, append_assoc)
        (Perm.symm (perm_middle (promises_of s.waiting_tasks) (promises_of s.active_tasks)))

  -- In every life of a scheduler, the tasks that were enqueued are those that were reported as
  -- finished and those that it still holds, waiting or active: by their handles and the types of
  -- their outputs, each as often as it was enqueued.
  pub history-perm :
      {client_next : N.Client} {tags : N.TagGenerator} {es fs : List (Promise R)}
      {s : Scheduler R N}
      → History client_next tags es fs s
      → Perm es (fs ++ promises s)
  unfolding new enqueue_input
  history-perm start = Perm.nil
  history-perm (enqueued {es} {fs} {s} {s'} h t self handle e) =
      Perm.trans (Perm.cons (issued handle) (history-perm h)) (
        Perm.trans (Perm.symm (perm_middle fs (promises s)))
          (Perm.append_left fs (enqueue_task-perm s s' t self handle e)))
  history-perm (fed h bytes) = history-perm h
  history-perm (progressed {es} {fs} {s} {s'} h fuel r e) =
      let kept : Perm (promises s) (released r ++ promises s') =
        subst (Releases s) e (progress-Conserves fuel s) in
      Perm.trans (Perm.trans (history-perm h) (Perm.append_left fs kept)) (
        rw (← append_assoc fs (released r) (promises s'))
          (Perm.append_right (promises s') (perm_append_comm fs (released r))))
