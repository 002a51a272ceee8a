-- ===== src/Tasks/Select.antt =====
-- src/tasks/tasks/select.rs
mod Fields
pub mod Session
use imap_client.Prelude.{
  ℕ, Bool, true, false, Option, some, none, List, [], ◌∷◌, Result, ok, if◌then◌else◌,
}
use imap_client.Imap.{
  ImapTypes, CommandBody, Data, StatusBody, StatusKind, Code, Flag, SelectParameter,
}
use imap_client.Task.{Task, process_default, process_authenticate_default}
use imap_client.Tasks.{TaskError, by_kind}

pub record SelectDataUnvalidated (T : ImapTypes) : Type 0 where
  pub flags : Option (List (Flag T))
  pub exists : Option ℕ
  pub recent : Option ℕ
  pub unseen : Option ℕ
  pub permanent_flags : Option (List T.FlagPerm)
  pub uid_next : Option ℕ
  pub uid_validity : Option ℕ
  pub highest_modseq : Option ℕ

pub record SelectTask (T : ImapTypes) : Type 0 where
  pub mailbox : T.Mailbox
  pub read_only : Bool
  pub condstore_enabled : Bool
  pub output : SelectDataUnvalidated T

module _ {T : ImapTypes} where
  -- `Default::default`
  abbrev pub default : SelectDataUnvalidated T
  default = record {
    flags = none;
    exists = none;
    recent = none;
    unseen = none;
    permanent_flags = none;
    uid_next = none;
    uid_validity = none;
    highest_modseq = none;
  }

  -- The checks only log what is missing.
  pub validate : SelectDataUnvalidated T → Result (SelectDataUnvalidated T) (TaskError T)
  validate self = ok self

  unfoldable pub new : T.Mailbox → SelectTask T
  new mailbox = record {
    mailbox = mailbox;
    read_only = false;
    condstore_enabled = false;
    output = default;
  }

  unfoldable pub read_only : T.Mailbox → SelectTask T
  read_only mailbox = record {
    mailbox = mailbox;
    read_only = true;
    condstore_enabled = false;
    output = default;
  }

  unfoldable pub with_condstore : SelectTask T → Bool → SelectTask T
  with_condstore self enabled = record self { condstore_enabled = enabled }

  pub command_body : SelectTask T → Option (CommandBody T)
  command_body self =
      let parameters = if self.condstore_enabled then SelectParameter.cond_store ∷ [] else [] in
      some (
        if self.read_only
        then CommandBody.examine self.mailbox parameters
        else CommandBody.select self.mailbox parameters)

  abbrev with_output : SelectTask T → SelectDataUnvalidated T → SelectTask T
  with_output self output = record self { output = output }

  pub process_data : SelectTask T → Data T → Option (Data T) × SelectTask T
  process_data self (Data.flags flags) =
      (none, with_output self (record self.output { flags = some flags }))
  process_data self (Data.exists count) =
      (none, with_output self (record self.output { exists = some count }))
  process_data self (Data.recent count) =
      (none, with_output self (record self.output { recent = some count }))
  process_data self d = (some d, self)

  -- The `match status_body.code` of an `Ok` status; `body` is handed back.
  pub process_code :
      SelectTask T → StatusBody T → Option (Code T) → Option (StatusBody T) × SelectTask T
  process_code self body (some (Code.unseen seq)) =
      (none, with_output self (record self.output { unseen = some seq }))
  process_code self body (some (Code.permanent_flags flags)) =
      (none, with_output self (record self.output { permanent_flags = some flags }))
  process_code self body (some (Code.uid_next uid)) =
      (none, with_output self (record self.output { uid_next = some uid }))
  process_code self body (some (Code.uid_validity uid)) =
      (none, with_output self (record self.output { uid_validity = some uid }))
  process_code self body (some (Code.highest_mod_seq modseq)) =
      (none, with_output self (record self.output { highest_modseq = some modseq }))
  process_code self body _ = (some body, self)

  pub process_untagged : SelectTask T → StatusBody T → Option (StatusBody T) × SelectTask T
  unfolding process_code
  process_untagged self body = elim body.kind [
    | StatusKind.ok ↦ process_code self body body.code
    | _ ↦ (some body, self)
  ]

  pub process_tagged : SelectTask T → StatusBody T → Result (SelectDataUnvalidated T) (TaskError T)
  unfolding validate
  process_tagged self body = by_kind body (validate self.output)

unfoldable pub task : (T : ImapTypes) → Task T (Result (SelectDataUnvalidated T) (TaskError T))
unfolding command_body process_data process_untagged process_tagged
task T = record {
  Self = SelectTask T;
  command_body = command_body;
  process_data = process_data;
  process_untagged = process_untagged;
  process_continuation_request = process_default;
  process_continuation_request_authenticate = process_authenticate_default;
  process_bye = process_default;
  process_tagged = process_tagged;
}
