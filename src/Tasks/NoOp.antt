-- ===== src/Tasks/NoOp.antt =====
-- src/tasks/tasks/noop.rs
use imap_client.Prelude.{some, Result, ok, Option}
use imap_client.Imap.{ImapTypes, CommandBody, StatusBody}
use imap_client.Task.{Task, process_default, process_authenticate_default}
use imap_client.Tasks.{TaskError, by_kind}

pub record NoOpTask (T : ImapTypes) : Type 0 where

module _ {T : ImapTypes} where
  pub new : NoOpTask T
  new = record {}

  pub command_body : NoOpTask T → Option (CommandBody T)
  command_body self = some (CommandBody.noop)

  pub process_tagged : NoOpTask T → StatusBody T → Result (Unit {0}) (TaskError T)
  process_tagged self body = by_kind body (ok tt)

unfoldable pub task : (T : ImapTypes) → Task T (Result (Unit {0}) (TaskError T))
unfolding command_body process_tagged
task T = record {
  Self = NoOpTask T;
  command_body = command_body;
  process_data = process_default;
  process_untagged = process_default;
  process_continuation_request = process_default;
  process_continuation_request_authenticate = process_authenticate_default;
  process_bye = process_default;
  process_tagged = process_tagged;
}
