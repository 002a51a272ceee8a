-- ===== src/Tasks/Library.antt =====
-- The tasks of src/tasks/tasks/ together, as the types that implement `Task`, and what they have in
-- common.
use imap_client.Prelude.{ℕ, Option, none, some, List, ◌≡◌, ◌≢◌, ◌⊎◌, Result, err, arith}
use imap_client.Prelude.HashMap.{HashMap, Iteration}
use imap_client.Imap.{
  ImapTypes, Data, StatusBody, StatusKind, Bye, CommandContinuationRequest, Capability,
  CapabilityEnable, MessageDataItem, Vec1,
}
use imap_client.Task.{Task, Registry}
use imap_client.Tasks.{TaskError, unexpected_bad_response, unexpected_no_response, by_kind}
use imap_client.Tasks.Append
use imap_client.Tasks.AppendUid
use imap_client.Tasks.Authenticate
use imap_client.Tasks.CapabilityQuery
use imap_client.Tasks.Check
use imap_client.Tasks.Copy
use imap_client.Tasks.Create
use imap_client.Tasks.Delete
use imap_client.Tasks.Enable
use imap_client.Tasks.Expunge
use imap_client.Tasks.Fetch
use imap_client.Tasks.FetchFirst
use imap_client.Tasks.ListMailboxes
use imap_client.Tasks.Login
use imap_client.Tasks.Logout
use imap_client.Tasks.Move
use imap_client.Tasks.NoOp
use imap_client.Tasks.PostAppendCheck
use imap_client.Tasks.PostAppendNoOp
use imap_client.Tasks.Search
use imap_client.Tasks.Select
use imap_client.Tasks.ServerId
use imap_client.Tasks.SilentStore
use imap_client.Tasks.Sort
use imap_client.Tasks.Store
use imap_client.Tasks.ThreadMessages

pub data TaskType : Type 0 where
  append append_uid authenticate capability check copy create : TaskType
  delete enable expunge fetch fetch_first list login : TaskType
  logout move no_op post_append_check post_append_no_op search select : TaskType
  id silent_store sort store thread : TaskType

pub data OutputType : Type 0 where
  optional_number optional_uid optional_capabilities capabilities nothing enabled : OutputType
  numbers items_by_message items mailboxes selected parameters threads : OutputType

unfoldable pub output_type_discrete : Discrete OutputType
output_type_discrete = hlevel

-- What a task returns when it is completed by OK.
abbrev pub Payload : ImapTypes → OutputType → Type 0
Payload T optional_number = Option ℕ
Payload T optional_uid = Option (ℕ × ℕ)
Payload T optional_capabilities = Option (Vec1 (Capability T))
Payload T capabilities = Vec1 (Capability T)
Payload T nothing = Unit {0}
Payload T enabled = Option (List (CapabilityEnable T))
Payload T numbers = List ℕ
Payload T items_by_message = HashMap (Vec1 (MessageDataItem T))
Payload T items = Vec1 (MessageDataItem T)
Payload T mailboxes = List (ListMailboxes.Listed T)
Payload T selected = Select.SelectDataUnvalidated T
Payload T parameters = ServerId.Parameters T
Payload T threads = List T.Thread

abbrev pub output_type : TaskType → OutputType
output_type append = optional_number
output_type append_uid = optional_uid
output_type authenticate = optional_capabilities
output_type capability = capabilities
output_type check = nothing
output_type copy = nothing
output_type create = nothing
output_type delete = nothing
output_type enable = enabled
output_type expunge = numbers
output_type fetch = items_by_message
output_type fetch_first = items
output_type list = mailboxes
output_type login = optional_capabilities
output_type logout = nothing
output_type move = nothing
output_type no_op = nothing
output_type post_append_check = optional_number
output_type post_append_no_op = optional_number
output_type search = numbers
output_type select = selected
output_type id = parameters
output_type silent_store = nothing
output_type sort = numbers
output_type store = items_by_message
output_type thread = threads

abbrev pub library_task :
    (I : Iteration) (T : ImapTypes) (t : TaskType)
    → Task T (Result (Payload T (output_type t)) (TaskError T))
library_task I T append = Append.task T
library_task I T append_uid = AppendUid.task T
library_task I T authenticate = Authenticate.task T
library_task I T capability = CapabilityQuery.task T
library_task I T check = Check.task T
library_task I T copy = Copy.task T
library_task I T create = Create.task T
library_task I T delete = Delete.task T
library_task I T enable = Enable.task T
library_task I T expunge = Expunge.task T
library_task I T fetch = Fetch.task I T
library_task I T fetch_first = FetchFirst.task T
library_task I T list = ListMailboxes.task T
library_task I T login = Login.task T
library_task I T logout = Logout.task T
library_task I T move = Move.task T
library_task I T no_op = NoOp.task T
library_task I T post_append_check = PostAppendCheck.task T
library_task I T post_append_no_op = PostAppendNoOp.task T
library_task I T search = Search.task T
library_task I T select = Select.task T
library_task I T id = ServerId.task T
library_task I T silent_store = SilentStore.task T
library_task I T sort = Sort.task T
library_task I T store = Store.task T
library_task I T thread = ThreadMessages.task T

abbrev pub library : Iteration → (T : ImapTypes) → Registry T
library I T = record {
  TaskType = TaskType;
  OutputType = OutputType;
  output_type_discrete = output_type_discrete;
  Output = λ c. Result (Payload T c) (TaskError T);
  output_type = output_type;
  task = library_task I T;
}

-- The error of a completion that is not OK.
abbrev pub failure : {T : ImapTypes} → StatusBody T → TaskError T
failure body = elim body.kind [
  | StatusKind.bad ↦ unexpected_bad_response body
  | _ ↦ unexpected_no_response body
]

by_kind-failure :
    {T : ImapTypes} {A : Type 0} (body : StatusBody T) (done : Result A (TaskError T))
    → body.kind ≢ StatusKind.ok
    → by_kind body done ≡ err (failure body)
by_kind-failure body done h = ground arith

-- Opens all tasks, for a module that builds one.
unfoldable pub all_tasks : Unit {0}
unfolding Append.task AppendUid.task Authenticate.task CapabilityQuery.task Check.task Copy.task
    Create.task Delete.task Enable.task Expunge.task Fetch.task FetchFirst.task ListMailboxes.task
    Login.task Logout.task Move.task NoOp.task PostAppendCheck.task PostAppendNoOp.task Search.task
    Select.task ServerId.task SilentStore.task Sort.task Store.task ThreadMessages.task
all_tasks = tt

-- A method that is offered a response keeps it, or hands it back as it is and changes nothing.
abbrev pub KeepsOrDeclines : {S A : Type 0} → (S → A → Option A × S) → S → A → Type 0
KeepsOrDeclines f self a = (f self a ≡ (some a, self)) ⊎ ((f self a).0 ≡ none)

module _ (I : Iteration) (T : ImapTypes) where
  -- Whatever a task of the library has gathered, a completion by NO or BAD makes it fail, with the
  -- error of that kind, which carries the status.
  pub process_tagged_fails :
      (t : TaskType) (self : (library_task I T t).Self) (body : StatusBody T)
      → body.kind ≢ StatusKind.ok
      → (library_task I T t).process_tagged self body ≡ err (failure body)
  unfolding all_tasks
  process_tagged_fails append self body h = by_kind-failure body _ h
  process_tagged_fails _ self body h = by_kind-failure body _ h

  -- A task of the library that is offered data, an untagged status, a continuation request or a BYE
  -- keeps it, or hands it back as it is and does not change.
  pub library_declines :
      (t : TaskType) (self : (library_task I T t).Self) (d : Data T) (body : StatusBody T)
      (c : CommandContinuationRequest T) (bye : Bye T)
      → KeepsOrDeclines (library_task I T t).process_data self d
        × KeepsOrDeclines (library_task I T t).process_untagged self body
        × KeepsOrDeclines (library_task I T t).process_continuation_request self c
        × KeepsOrDeclines (library_task I T t).process_bye self bye
  unfolding all_tasks
  library_declines append self d body c bye = ground arith
  library_declines _ self d body c bye = ground arith
