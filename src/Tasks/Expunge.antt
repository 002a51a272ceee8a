-- ===== src/Tasks/Expunge.antt =====
-- src/tasks/tasks/expunge.rs
use imap_client.Prelude.{ℕ, Option, some, none, List, [], ◌∷◌, ◌++◌, ◌≡◌, refl, ap, ◌∙◌, Result, ok}
use imap_client.Imap.{ImapTypes, CommandBody, Data, StatusBody, StatusKind}
use imap_client.Task.{Task, process_default, process_authenticate_default}
use imap_client.Task.Feed.{Takes, feed, unwanted, wanted, feed_push}
use imap_client.Tasks.{TaskError, by_kind, by_kind-ok}

pub record ExpungeTask (T : ImapTypes) : Type 0 where
  pub output : List ℕ

module _ {T : ImapTypes} where
  unfoldable pub new : ExpungeTask T
  new = record { output = [] }

  unfoldable pub command_body : ExpungeTask T → Option (CommandBody T)
  command_body self = some CommandBody.expunge

  unfoldable pub process_data : ExpungeTask T → Data T → Option (Data T) × ExpungeTask T
  process_data self (Data.expunge seq) = (none, record self { output = self.output ++ seq ∷ [] })
  process_data self d = (some d, self)

  unfoldable pub process_tagged : ExpungeTask T → StatusBody T → Result (List ℕ) (TaskError T)
  process_tagged self body = by_kind body (ok self.output)

  -- The sequence number of an EXPUNGE response.
  abbrev pub as_expunge : Data T → Option ℕ
  as_expunge (Data.expunge seq) = some seq
  as_expunge _ = none

  push : ExpungeTask T → ℕ → ExpungeTask T
  push self seq = record self { output = self.output ++ seq ∷ [] }

  takes : (self : ExpungeTask T) (d : Data T) → Takes process_data as_expunge push self d
  unfolding process_data push
  takes self (Data.expunge seq) = refl
  takes self _ = refl

  -- From its creation to an OK completion, an EXPUNGE task hands back all responses but the
  -- EXPUNGE responses, in their order, and its output is the number of each of these, in their
  -- order and with every repetition.
  pub expunge_transcript :
      (ds : List (Data T)) (body : StatusBody T)
      → body.kind ≡ StatusKind.ok
      → ((feed process_data new ds).0 ≡ unwanted as_expunge ds)
        × (process_tagged (feed process_data new ds).1 body ≡ ok (wanted as_expunge ds))
  unfolding new process_tagged push
  expunge_transcript ds body done =
      let (back, output) =
        feed_push process_data as_expunge push takes (λ t. t.output) (λ t x. refl) new ds in
      (back, by_kind-ok body _ done ∙ ap ok output)

unfoldable pub task : (T : ImapTypes) → Task T (Result (List ℕ) (TaskError T))
unfolding command_body process_data process_tagged
task T = record {
  Self = ExpungeTask T;
  command_body = command_body;
  process_data = process_data;
  process_untagged = process_default;
  process_continuation_request = process_default;
  process_continuation_request_authenticate = process_authenticate_default;
  process_bye = process_default;
  process_tagged = process_tagged;
}
