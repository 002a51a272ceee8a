-- ===== src/Tasks/ListMailboxes.antt =====
-- src/tasks/tasks/list.rs
use imap_client.Prelude.{Option, some, none, List, [], ◌∷◌, ◌++◌, ◌≡◌, refl, ap, ◌∙◌, Result, ok}
use imap_client.Imap.{ImapTypes, CommandBody, Data, StatusBody, StatusKind}
use imap_client.Task.{Task, process_default, process_authenticate_default}
use imap_client.Task.Feed.{Takes, feed, unwanted, wanted, feed_push}
use imap_client.Tasks.{TaskError, by_kind, by_kind-ok}

abbrev pub Listed : ImapTypes → Type 0
Listed T = T.Mailbox × Option T.QuotedChar × List T.FlagNameAttribute

pub record ListTask (T : ImapTypes) : Type 0 where
  pub mailbox : T.Mailbox
  pub mailbox_wildcard : T.ListMailbox
  pub output : List (Listed T)

module _ {T : ImapTypes} where
  unfoldable pub new : T.Mailbox → T.ListMailbox → ListTask T
  new mailbox wildcard = record { mailbox = mailbox; mailbox_wildcard = wildcard; output = [] }

  pub command_body : ListTask T → Option (CommandBody T)
  command_body self = some (CommandBody.list self.mailbox self.mailbox_wildcard)

  pub process_data : ListTask T → Data T → Option (Data T) × ListTask T
  process_data self (Data.list items delimiter mailbox) =
      (none, record self { output = self.output ++ (mailbox, delimiter, items) ∷ [] })
  process_data self d = (some d, self)

  pub process_tagged : ListTask T → StatusBody T → Result (List (Listed T)) (TaskError T)
  process_tagged self body = by_kind body (ok self.output)

  -- The payload of a LIST response.
  abbrev pub as_list : Data T → Option (Listed T)
  as_list (Data.list items delimiter mailbox) = some (mailbox, delimiter, items)
  as_list _ = none

  push : ListTask T → Listed T → ListTask T
  push self x = record self { output = self.output ++ x ∷ [] }

  takes : (self : ListTask T) (d : Data T) → Takes process_data as_list push self d
  unfolding process_data push
  takes self (Data.list items delimiter mailbox) = refl
  takes self _ = refl

  -- From its creation to an OK completion, a LIST task hands back all responses but the LIST
  -- responses, in their order, and its output is the payload of each of these, in their order.
  pub list_transcript :
      (mailbox : T.Mailbox) (wildcard : T.ListMailbox) (ds : List (Data T)) (body : StatusBody T)
      → body.kind ≡ StatusKind.ok
      → ((feed process_data (new mailbox wildcard) ds).0 ≡ unwanted as_list ds)
        × (process_tagged (feed process_data (new mailbox wildcard) ds).1 body
            ≡ ok (wanted as_list ds))
  unfolding new process_tagged push
  list_transcript mailbox wildcard ds body done =
      let (back, output) =
        feed_push process_data as_list push takes (λ t. t.output) (λ t x. refl)
          (new mailbox wildcard) ds in
      (back, by_kind-ok body _ done ∙ ap ok output)

unfoldable pub task : (T : ImapTypes) → Task T (Result (List (Listed T)) (TaskError T))
unfolding command_body process_data process_tagged
task T = record {
  Self = ListTask T;
  command_body = command_body;
  process_data = process_data;
  process_untagged = process_default;
  process_continuation_request = process_default;
  process_continuation_request_authenticate = process_authenticate_default;
  process_bye = process_default;
  process_tagged = process_tagged;
}
