-- ===== src/Tasks/Create.antt =====
-- src/tasks/tasks/create.rs
use imap_client.Prelude.{some, Result, ok, Option}
use imap_client.Imap.{ImapTypes, CommandBody, StatusBody}
use imap_client.Task.{Task, process_default, process_authenticate_default}
use imap_client.Tasks.{TaskError, by_kind}

pub record CreateTask (T : ImapTypes) : Type 0 where
  pub mailbox : T.Mailbox

module _ {T : ImapTypes} where
  pub new : T.Mailbox → CreateTask T
  new mailbox = record { mailbox = mailbox }

  pub command_body : CreateTask T → Option (CommandBody T)
  command_body self = some (CommandBody.create self.mailbox)

  pub process_tagged : CreateTask T → StatusBody T → Result (Unit {0}) (TaskError T)
  process_tagged self body = by_kind body (ok tt)

unfoldable pub task : (T : ImapTypes) → Task T (Result (Unit {0}) (TaskError T))
unfolding command_body process_tagged
task T = record {
  Self = CreateTask T;
  command_body = command_body;
  process_data = process_default;
  process_untagged = process_default;
  process_continuation_request = process_default;
  process_continuation_request_authenticate = process_authenticate_default;
  process_bye = process_default;
  process_tagged = process_tagged;
}
