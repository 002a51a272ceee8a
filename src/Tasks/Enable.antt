-- ===== src/Tasks/Enable.antt =====
-- src/tasks/tasks/enable.rs
use imap_client.Prelude.{Option, some, none, List, Result, ok}
use imap_client.Imap.{ImapTypes, CommandBody, Data, StatusBody, CapabilityEnable, Vec1}
use imap_client.Task.{Task, process_default, process_authenticate_default}
use imap_client.Tasks.{TaskError, by_kind}

pub record EnableTask (T : ImapTypes) : Type 0 where
  pub requested_capabilities : Vec1 (CapabilityEnable T)
  pub enabled_capabilities : Option (List (CapabilityEnable T))

module _ {T : ImapTypes} where
  pub new : Vec1 (CapabilityEnable T) → EnableTask T
  new capabilities = record { requested_capabilities = capabilities; enabled_capabilities = none }

  pub command_body : EnableTask T → Option (CommandBody T)
  command_body self = some (CommandBody.enable self.requested_capabilities)

  pub process_data : EnableTask T → Data T → Option (Data T) × EnableTask T
  process_data self (Data.enabled capabilities) =
      (none, record self { enabled_capabilities = some capabilities })
  process_data self d = (some d, self)

  pub process_tagged :
      EnableTask T → StatusBody T → Result (Option (List (CapabilityEnable T))) (TaskError T)
  process_tagged self body = by_kind body (ok self.enabled_capabilities)

unfoldable pub task :
    (T : ImapTypes) → Task T (Result (Option (List (CapabilityEnable T))) (TaskError T))
unfolding command_body process_data process_tagged
task T = record {
  Self = EnableTask T;
  command_body = command_body;
  process_data = process_data;
  process_untagged = process_default;
  process_continuation_request = process_default;
  process_continuation_request_authenticate = process_authenticate_default;
  process_bye = process_default;
  process_tagged = process_tagged;
}
