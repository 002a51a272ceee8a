-- ===== src/Tasks/CapabilityQuery.antt =====
-- src/tasks/tasks/capability.rs
use imap_client.Prelude.{Option, some, none, Result, ok, err}
use imap_client.Imap.{ImapTypes, CommandBody, Data, StatusBody, Capability, Code, Vec1}
use imap_client.Task.{Task, process_default, process_authenticate_default}
use imap_client.Tasks.{TaskError, by_kind, missing_data}

pub record CapabilityTask (T : ImapTypes) : Type 0 where
  pub output : Option (Vec1 (Capability T))

-- The capabilities of a status code, if it has them.
abbrev pub code_capabilities : {T : ImapTypes} → Option (Code T) → Option (Vec1 (Capability T))
code_capabilities (some (Code.capability capabilities)) = some capabilities
code_capabilities _ = none

module _ {T : ImapTypes} where
  pub new : CapabilityTask T
  new = record { output = none }

  pub command_body : CapabilityTask T → Option (CommandBody T)
  command_body self = some CommandBody.capability

  pub process_data : CapabilityTask T → Data T → Option (Data T) × CapabilityTask T
  process_data self (Data.capability capabilities) =
      (none, record self { output = some capabilities })
  process_data self d = (some d, self)

  pub process_untagged : CapabilityTask T → StatusBody T → Option (StatusBody T) × CapabilityTask T
  process_untagged self body = elim (code_capabilities body.code) [
    | some capabilities ↦ (none, record self { output = some capabilities })
    | none ↦ (some body, self)
  ]

  pub process_tagged : CapabilityTask T → StatusBody T → Result (Vec1 (Capability T)) (TaskError T)
  process_tagged self body = by_kind body (elim self.output [
    | some capabilities ↦ ok capabilities
    | none ↦ elim (code_capabilities body.code) [
      | some capabilities ↦ ok capabilities
      | none ↦ err (missing_data "CAPABILITY")
    ]
  ])

unfoldable pub task : (T : ImapTypes) → Task T (Result (Vec1 (Capability T)) (TaskError T))
unfolding command_body process_data process_untagged process_tagged
task T = record {
  Self = CapabilityTask T;
  command_body = command_body;
  process_data = process_data;
  process_untagged = process_untagged;
  process_continuation_request = process_default;
  process_continuation_request_authenticate = process_authenticate_default;
  process_bye = process_default;
  process_tagged = process_tagged;
}
