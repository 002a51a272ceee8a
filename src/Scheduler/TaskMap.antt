-- ===== src/Scheduler/TaskMap.antt =====
-- `TaskMap` of src/tasks/mod.rs: a queue of tasks with their handles and tags.
use imap_client.Prelude.{Option, none, some, List, [], ◌∷◌, ◌++◌, ◌≡◌}
use imap_client.Prelude.Deque.{remove_first}
use imap_client.Imap.{ImapTypes}
use imap_client.Task.{Registry, TaskAny}

module _ {T : ImapTypes} (R : Registry T) where
  -- `(CommandHandle, Tag, Box<dyn TaskAny>)`
  pub record Entry : Type 0 where
    pub handle : T.CommandHandle
    pub tag : T.Tag
    pub task : TaskAny R

  abbrev pub TaskMap : Type 0
  TaskMap = List Entry

module _ {T : ImapTypes} {R : Registry T} where
  unfoldable pub push_back : TaskMap R → T.CommandHandle → T.Tag → TaskAny R → TaskMap R
  push_back tasks handle tag task = tasks ++ record { handle = handle; tag = tag; task = task } ∷ []

  abbrev pub HasHandle : T.CommandHandle → Entry R → Type 0
  HasHandle handle entry = handle ≡ entry.handle

  abbrev pub HasTag : T.Tag → Entry R → Type 0
  HasTag tag entry = tag ≡ entry.tag

  unfoldable pub remove_by_handle : TaskMap R → T.CommandHandle → Option (Entry R × TaskMap R)
  remove_by_handle tasks handle =
      remove_first {P = HasHandle handle} (λ entry. T.handle_discrete handle entry.handle) tasks

  unfoldable pub remove_by_tag : TaskMap R → T.Tag → Option (Entry R × TaskMap R)
  remove_by_tag tasks tag =
      remove_first {P = HasTag tag} (λ entry. T.tag_discrete tag entry.tag) tasks

  -- `get_task_by_handle_mut`, with what is done to the task that it finds.
  abbrev pub put_back : {A : Type 0} → Entry R → Option (A × TaskMap R) → Option (A × TaskMap R)
  put_back entry none = none
  put_back entry (some (a, tasks)) = some (a, entry ∷ tasks)

  abbrev pub with_task : {A : Type 0} → Entry R → A × TaskAny R → A × Entry R
  with_task entry (a, task) = (a, record entry { task = task })

  unfoldable pub update_task_by_handle :
      {A : Type 0}
      → TaskMap R
      → T.CommandHandle
      → (TaskAny R → A × TaskAny R)
      → Option (A × TaskMap R)
  update_task_by_handle [] handle f = none
  update_task_by_handle (entry ∷ tasks) handle f =
      let rest = put_back entry (update_task_by_handle tasks handle f) in
      elim (T.handle_discrete handle entry.handle) [
        | yes _ ↦ let (a, entry') = with_task entry (f entry.task) in some (a, entry' ∷ tasks)
        | no _ ↦ rest
      ]
