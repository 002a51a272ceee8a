-- ===== src/Tasks/AppendUid.antt =====
-- src/tasks/tasks/appenduid.rs
use imap_client.Prelude.{ℕ, Option, some, none, List, [], ◌∷◌, ◌++◌, Result, ok}
use imap_client.Imap.{ImapTypes, CommandBody, StatusBody, Code, Flag, LiteralOrLiteral8}
use imap_client.Task.{Task, process_default, process_authenticate_default}
use imap_client.Tasks.{TaskError, by_kind}

pub record AppendUidTask (T : ImapTypes) : Type 0 where
  pub mailbox : T.Mailbox
  pub flags : List (Flag T)
  pub date : Option T.DateTime
  pub message : LiteralOrLiteral8 T

module _ {T : ImapTypes} where
  unfoldable pub new : T.Mailbox → LiteralOrLiteral8 T → AppendUidTask T
  new mailbox message = record { mailbox = mailbox; flags = []; date = none; message = message }

  pub set_flags : AppendUidTask T → List (Flag T) → AppendUidTask T
  set_flags self flags = record self { flags = flags }

  pub add_flag : AppendUidTask T → Flag T → AppendUidTask T
  add_flag self flag = record self { flags = self.flags ++ flag ∷ [] }

  unfoldable pub with_flags : AppendUidTask T → List (Flag T) → AppendUidTask T
  unfolding set_flags
  with_flags self flags = set_flags self flags

  pub with_flag : AppendUidTask T → Flag T → AppendUidTask T
  unfolding add_flag
  with_flag self flag = add_flag self flag

  pub set_date : AppendUidTask T → T.DateTime → AppendUidTask T
  set_date self date = record self { date = some date }

  pub with_date : AppendUidTask T → T.DateTime → AppendUidTask T
  unfolding set_date
  with_date self date = set_date self date

  pub command_body : AppendUidTask T → Option (CommandBody T)
  command_body self = some (CommandBody.append self.mailbox self.flags self.date self.message)

  -- The `if let` of `process_tagged`.
  abbrev pub uid_and_validity : Option (Code T) → Option (ℕ × ℕ)
  uid_and_validity (some (Code.append_uid uid uid_validity)) = some (uid, uid_validity)
  uid_and_validity _ = none

  pub process_tagged : AppendUidTask T → StatusBody T → Result (Option (ℕ × ℕ)) (TaskError T)
  process_tagged self body = by_kind body (ok (uid_and_validity body.code))

unfoldable pub task : (T : ImapTypes) → Task T (Result (Option (ℕ × ℕ)) (TaskError T))
unfolding command_body process_tagged
task T = record {
  Self = AppendUidTask T;
  command_body = command_body;
  process_data = process_default;
  process_untagged = process_default;
  process_continuation_request = process_default;
  process_continuation_request_authenticate = process_authenticate_default;
  process_bye = process_default;
  process_tagged = process_tagged;
}
