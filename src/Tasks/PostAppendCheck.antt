-- ===== src/Tasks/PostAppendCheck.antt =====
-- src/tasks/tasks/append.rs, `PostAppendCheckTask`
use imap_client.Prelude.{ℕ, Option, some, none, Result, ok}
use imap_client.Imap.{ImapTypes, CommandBody, Data, StatusBody}
use imap_client.Task.{Task, process_default, process_authenticate_default}
use imap_client.Tasks.{TaskError, by_kind}

pub record PostAppendCheckTask (T : ImapTypes) : Type 0 where
  pub output : Option ℕ

module _ {T : ImapTypes} where
  pub new : PostAppendCheckTask T
  new = record { output = none }

  pub command_body : PostAppendCheckTask T → Option (CommandBody T)
  command_body self = some CommandBody.check

  pub process_data : PostAppendCheckTask T → Data T → Option (Data T) × PostAppendCheckTask T
  process_data self (Data.exists seq) = (none, record self { output = some seq })
  process_data self d = (some d, self)

  pub process_tagged : PostAppendCheckTask T → StatusBody T → Result (Option ℕ) (TaskError T)
  process_tagged self body = by_kind body (ok self.output)

unfoldable pub task : (T : ImapTypes) → Task T (Result (Option ℕ) (TaskError T))
unfolding command_body process_data process_tagged
task T = record {
  Self = PostAppendCheckTask T;
  command_body = command_body;
  process_data = process_data;
  process_untagged = process_default;
  process_continuation_request = process_default;
  process_continuation_request_authenticate = process_authenticate_default;
  process_bye = process_default;
  process_tagged = process_tagged;
}
