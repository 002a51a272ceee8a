-- ===== src/Tasks/Append.antt =====
-- src/tasks/tasks/append.rs
use imap_client.Prelude.{ℕ, Option, some, none, List, [], ◌∷◌, ◌++◌, ◌≡◌, refl, ap, ◌∙◌, Result, ok}
use imap_client.Imap.{ImapTypes, CommandBody, Data, StatusBody, StatusKind, Flag, LiteralOrLiteral8}
use imap_client.Task.{Task, process_default, process_authenticate_default}
use imap_client.Task.Feed.{feed, unwanted, wanted, last_or, feed_back, feed_field}
use imap_client.Tasks.{TaskError, by_kind, by_kind-ok}

pub record AppendTask (T : ImapTypes) : Type 0 where
  pub mailbox : T.Mailbox
  pub flags : List (Flag T)
  pub date : Option T.DateTime
  pub message : LiteralOrLiteral8 T
  pub output : Option ℕ

module _ {T : ImapTypes} where
  unfoldable pub new : T.Mailbox → LiteralOrLiteral8 T → AppendTask T
  new mailbox message = record {
    mailbox = mailbox;
    flags = [];
    date = none;
    message = message;
    output = none;
  }

  pub set_flags : AppendTask T → List (Flag T) → AppendTask T
  set_flags self flags = record self { flags = flags }

  pub add_flag : AppendTask T → Flag T → AppendTask T
  add_flag self flag = record self { flags = self.flags ++ flag ∷ [] }

  unfoldable pub with_flags : AppendTask T → List (Flag T) → AppendTask T
  unfolding set_flags
  with_flags self flags = set_flags self flags

  pub with_flag : AppendTask T → Flag T → AppendTask T
  unfolding add_flag
  with_flag self flag = add_flag self flag

  pub set_date : AppendTask T → T.DateTime → AppendTask T
  set_date self date = record self { date = some date }

  pub with_date : AppendTask T → T.DateTime → AppendTask T
  unfolding set_date
  with_date self date = set_date self date

  pub command_body : AppendTask T → Option (CommandBody T)
  command_body self = some (CommandBody.append self.mailbox self.flags self.date self.message)

  pub process_data : AppendTask T → Data T → Option (Data T) × AppendTask T
  process_data self (Data.exists seq) = (none, record self { output = some seq })
  process_data self d = (some d, self)

  pub process_tagged : AppendTask T → StatusBody T → Result (Option ℕ) (TaskError T)
  process_tagged self body = by_kind body (ok self.output)

  -- The count of an EXISTS response, as the task stores it.
  abbrev pub as_exists : Data T → Option (Option ℕ)
  as_exists (Data.exists seq) = some (some seq)
  as_exists _ = none

  back :
      (self : AppendTask T) (d : Data T)
      → (process_data self d).0 ≡ elim (as_exists d) [ none ↦ some d | some x ↦ none ]
  unfolding process_data
  back self (Data.exists seq) = refl
  back self _ = refl

  output :
      (self : AppendTask T) (d : Data T)
      → (process_data self d).1.output ≡ elim (as_exists d) [ none ↦ self.output | some x ↦ x ]
  unfolding process_data
  output self (Data.exists seq) = refl
  output self _ = refl

  -- An APPEND task hands back all responses but EXISTS, in their order, and its output at an OK
  -- completion is the count of the last EXISTS response, or none if there was none.
  pub append_transcript :
      (mailbox : T.Mailbox) (message : LiteralOrLiteral8 T) (ds : List (Data T))
      (body : StatusBody T)
      → body.kind ≡ StatusKind.ok
      → ((feed process_data (new mailbox message) ds).0 ≡ unwanted as_exists ds)
        × (process_tagged (feed process_data (new mailbox message) ds).1 body
            ≡ ok (last_or (wanted as_exists ds) none))
  unfolding new process_tagged
  append_transcript mailbox message ds body done = (
    feed_back process_data as_exists back _ ds,
    by_kind-ok body _ done
        ∙ ap ok (feed_field process_data (λ t. t.output) as_exists output (new mailbox message) ds),
  )

unfoldable pub task : (T : ImapTypes) → Task T (Result (Option ℕ) (TaskError T))
unfolding command_body process_data process_tagged
task T = record {
  Self = AppendTask T;
  command_body = command_body;
  process_data = process_data;
  process_untagged = process_default;
  process_continuation_request = process_default;
  process_continuation_request_authenticate = process_authenticate_default;
  process_bye = process_default;
  process_tagged = process_tagged;
}
