-- ===== src/Tasks/ServerId.antt =====
-- src/tasks/tasks/id.rs
use imap_client.Prelude.{Option, some, none, List, Result, ok}
use imap_client.Imap.{ImapTypes, CommandBody, Data, StatusBody}
use imap_client.Task.{Task, process_default, process_authenticate_default}
use imap_client.Tasks.{TaskError, by_kind}

abbrev pub Parameters : ImapTypes → Type 0
Parameters T = Option (List (T.IString × T.NString))

pub record IdTask (T : ImapTypes) : Type 0 where
  pub client : Parameters T
  pub server : Parameters T

module _ {T : ImapTypes} where
  pub new : Parameters T → IdTask T
  new parameters = record { client = parameters; server = none }

  pub command_body : IdTask T → Option (CommandBody T)
  command_body self = some (CommandBody.id self.client)

  pub process_data : IdTask T → Data T → Option (Data T) × IdTask T
  process_data self (Data.id parameters) = (none, record self { server = parameters })
  process_data self d = (some d, self)

  pub process_tagged : IdTask T → StatusBody T → Result (Parameters T) (TaskError T)
  process_tagged self body = by_kind body (ok self.server)

unfoldable pub task : (T : ImapTypes) → Task T (Result (Parameters T) (TaskError T))
unfolding command_body process_data process_tagged
task T = record {
  Self = IdTask T;
  command_body = command_body;
  process_data = process_data;
  process_untagged = process_default;
  process_continuation_request = process_default;
  process_continuation_request_authenticate = process_authenticate_default;
  process_bye = process_default;
  process_tagged = process_tagged;
}
