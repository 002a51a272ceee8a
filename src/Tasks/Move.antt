-- ===== src/Tasks/Move.antt =====
-- src/tasks/tasks/move.rs
use imap_client.Prelude.{Bool, true, some, Result, ok, Option}
use imap_client.Imap.{ImapTypes, CommandBody, StatusBody}
use imap_client.Task.{Task, process_default, process_authenticate_default}
use imap_client.Tasks.{TaskError, by_kind}

pub record MoveTask (T : ImapTypes) : Type 0 where
  pub sequence_set : T.SequenceSet
  pub mailbox : T.Mailbox
  pub uid : Bool

module _ {T : ImapTypes} where
  pub new : T.SequenceSet → T.Mailbox → MoveTask T
  new sequence_set mailbox = record { sequence_set = sequence_set; mailbox = mailbox; uid = true }

  pub set_uid : MoveTask T → Bool → MoveTask T
  set_uid self uid = record self { uid = uid }

  pub with_uid : MoveTask T → Bool → MoveTask T
  unfolding set_uid
  with_uid self uid = set_uid self uid

  pub command_body : MoveTask T → Option (CommandBody T)
  command_body self = some (CommandBody.move self.sequence_set self.mailbox self.uid)

  pub process_tagged : MoveTask T → StatusBody T → Result (Unit {0}) (TaskError T)
  process_tagged self body = by_kind body (ok tt)

unfoldable pub task : (T : ImapTypes) → Task T (Result (Unit {0}) (TaskError T))
unfolding command_body process_tagged
task T = record {
  Self = MoveTask T;
  command_body = command_body;
  process_data = process_default;
  process_untagged = process_default;
  process_continuation_request = process_default;
  process_continuation_request_authenticate = process_authenticate_default;
  process_bye = process_default;
  process_tagged = process_tagged;
}
