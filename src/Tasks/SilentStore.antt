-- ===== src/Tasks/SilentStore.antt =====
-- src/tasks/tasks/store.rs, `SilentStoreTask`
use imap_client.Prelude.{Option, some, Result, ok}
use imap_client.Imap.{ImapTypes, CommandBody, StatusBody, StoreResponse}
use imap_client.Task.{Task, process_default, process_authenticate_default}
use imap_client.Tasks.Store.{StoreTask}
use imap_client.Tasks.{TaskError, by_kind}

pub record SilentStoreTask (T : ImapTypes) : Type 0 where
  pub store : StoreTask T

module _ {T : ImapTypes} where
  unfoldable pub new : StoreTask T → SilentStoreTask T
  new store = record { store = store }

  -- `StoreTask::silent`
  unfoldable pub silent : StoreTask T → SilentStoreTask T
  unfolding new
  silent self = new self

  pub command_body : SilentStoreTask T → Option (CommandBody T)
  command_body self = some (
      CommandBody.store self.store.sequence_set self.store.kind StoreResponse.silent
        self.store.flags self.store.uid)

  pub process_tagged : SilentStoreTask T → StatusBody T → Result (Unit {0}) (TaskError T)
  process_tagged self body = by_kind body (ok tt)

unfoldable pub task : (T : ImapTypes) → Task T (Result (Unit {0}) (TaskError T))
unfolding command_body process_tagged
task T = record {
  Self = SilentStoreTask T;
  command_body = command_body;
  process_data = process_default;
  process_untagged = process_default;
  process_continuation_request = process_default;
  process_continuation_request_authenticate = process_authenticate_default;
  process_bye = process_default;
  process_tagged = process_tagged;
}
