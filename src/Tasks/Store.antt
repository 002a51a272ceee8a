-- ===== src/Tasks/Store.antt =====
-- src/tasks/tasks/store.rs, `StoreTask`
use imap_client.Prelude.{
  Bool, true, Option, some, none, List, [], Result, ok, ◌≡◌, refl, ℕ, if◌then◌else◌, ◌==◌, arith,
}
use imap_client.Imap.{
  ImapTypes, CommandBody, Data, StatusBody, StatusKind, Flag, MessageDataItem, StoreResponse,
  StoreType, Vec1,
}
use imap_client.Task.{Task, process_default, process_authenticate_default}
use imap_client.Prelude.HashMap.{HashMap, insert, get, get-insert}
use imap_client.Task.Feed.{feed, unwanted, wanted, last_or, feed_back, feed_field}
use imap_client.Tasks.{TaskError, by_kind, by_kind-ok}

pub record StoreTask (T : ImapTypes) : Type 0 where
  pub sequence_set : T.SequenceSet
  pub kind : StoreType T
  pub flags : List (Flag T)
  pub uid : Bool
  pub output : HashMap (Vec1 (MessageDataItem T))

module _ {T : ImapTypes} where
  unfoldable pub new : T.SequenceSet → StoreType T → List (Flag T) → StoreTask T
  new sequence_set kind flags = record {
    sequence_set = sequence_set;
    kind = kind;
    flags = flags;
    uid = true;
    output = [];
  }

  unfoldable pub set_uid : StoreTask T → Bool → StoreTask T
  set_uid self uid = record self { uid = uid }

  unfoldable pub with_uid : StoreTask T → Bool → StoreTask T
  unfolding set_uid
  with_uid self uid = set_uid self uid

  pub command_body : StoreTask T → Option (CommandBody T)
  command_body self =
      some (CommandBody.store self.sequence_set self.kind StoreResponse.answer self.flags self.uid)

  pub process_data : StoreTask T → Data T → Option (Data T) × StoreTask T
  process_data self (Data.fetch seq items) =
      (none, record self { output = insert seq items self.output })
  process_data self d = (some d, self)

  pub process_tagged :
      StoreTask T → StatusBody T → Result (HashMap (Vec1 (MessageDataItem T))) (TaskError T)
  process_tagged self body = by_kind body (ok self.output)

  -- The items of a FETCH response, and those of one message, as the task stores them.
  abbrev pub as_fetch : Data T → Option (Vec1 (MessageDataItem T))
  as_fetch (Data.fetch seq items) = some items
  as_fetch _ = none

  abbrev pub as_fetch_of : ℕ → Data T → Option (Option (Vec1 (MessageDataItem T)))
  as_fetch_of seq (Data.fetch k items) = if k == seq then some (some items) else none
  as_fetch_of seq _ = none

  back :
      (self : StoreTask T) (d : Data T)
      → (process_data self d).0 ≡ elim (as_fetch d) [ none ↦ some d | some x ↦ none ]
  unfolding process_data
  back self (Data.fetch seq items) = refl
  back self _ = refl

  output-get :
      (seq : ℕ) (self : StoreTask T) (d : Data T)
      → get seq (process_data self d).1.output
        ≡ elim (as_fetch_of seq d) [ none ↦ get seq self.output | some x ↦ x ]
  unfolding process_data
  output-get seq self (Data.fetch k items) = ground (arith, get-insert k seq items self.output)
  output-get seq self _ = refl

  -- A STORE task hands back all responses but the FETCH responses, in their order. At an OK
  -- completion its output has, for each message, the items of the last FETCH response of that
  -- message, and no entry for a message that had none.
  pub store_transcript :
      (sequence_set : T.SequenceSet) (kind : StoreType T) (flags : List (Flag T))
      (ds : List (Data T)) (body : StatusBody T)
      → body.kind ≡ StatusKind.ok
      → let fed = feed process_data (new sequence_set kind flags) ds in
        (fed.0 ≡ unwanted as_fetch ds)
        × ((output : HashMap (Vec1 (MessageDataItem T))) × (process_tagged fed.1 body ≡ ok output)
            × ((seq : ℕ) → get seq output ≡ last_or (wanted (as_fetch_of seq) ds) none))
  unfolding new process_tagged get
  store_transcript sequence_set kind flags ds body done = (
    feed_back process_data as_fetch back _ ds,
    (
      _,
      by_kind-ok body _ done,
      λ seq.
          feed_field process_data (λ t. get seq t.output) (as_fetch_of seq) (output-get seq)
            (new sequence_set kind flags) ds,
    ),
  )

unfoldable pub task :
    (T : ImapTypes) → Task T (Result (HashMap (Vec1 (MessageDataItem T))) (TaskError T))
unfolding command_body process_data process_tagged
task T = record {
  Self = StoreTask T;
  command_body = command_body;
  process_data = process_data;
  process_untagged = process_default;
  process_continuation_request = process_default;
  process_continuation_request_authenticate = process_authenticate_default;
  process_bye = process_default;
  process_tagged = process_tagged;
}
