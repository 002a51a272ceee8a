-- ===== src/Tasks/FetchFirst.antt =====
-- src/tasks/tasks/fetch.rs, `FetchFirstTask`
use imap_client.Prelude.{
  ℕ, Bool, true, Option, some, none, List, [], ◌∷◌, ◌≡◌, refl, map, ap, ◌∙◌, Result, ok, err,
}
use imap_client.Imap.{
  ImapTypes, CommandBody, Data, StatusBody, StatusKind, MacroOrMessageDataItemNames,
  MessageDataItem, Vec1,
}
use imap_client.Task.{Task, process_default, process_authenticate_default}
use imap_client.Task.Feed.{Takes, feed, unwanted, wanted, feed_last, last_or, last_or-map}
use imap_client.Tasks.{TaskError, by_kind, by_kind-ok, missing_data}

pub record FetchFirstTask (T : ImapTypes) : Type 0 where
  pub id : ℕ
  pub macro_or_item_names : MacroOrMessageDataItemNames T
  pub uid : Bool
  pub output : Option (Vec1 (MessageDataItem T))

module _ {T : ImapTypes} where
  pub new : ℕ → MacroOrMessageDataItemNames T → FetchFirstTask T
  new id items = record { id = id; macro_or_item_names = items; uid = true; output = none }

  pub set_uid : FetchFirstTask T → Bool → FetchFirstTask T
  set_uid self uid = record self { uid = uid }

  pub with_uid : FetchFirstTask T → Bool → FetchFirstTask T
  unfolding set_uid
  with_uid self uid = set_uid self uid

  pub command_body : FetchFirstTask T → Option (CommandBody T)
  command_body self =
      some (CommandBody.fetch [] (T.sequence_set_from self.id) self.macro_or_item_names self.uid)

  pub process_data : FetchFirstTask T → Data T → Option (Data T) × FetchFirstTask T
  process_data self (Data.fetch seq items) = (none, record self { output = some items })
  process_data self d = (some d, self)

  abbrev output_or_missing :
      Option (Vec1 (MessageDataItem T)) → Result (Vec1 (MessageDataItem T)) (TaskError T)
  output_or_missing (some items) = ok items
  output_or_missing none = err (missing_data "FETCH: items")

  pub process_tagged :
      FetchFirstTask T → StatusBody T → Result (Vec1 (MessageDataItem T)) (TaskError T)
  process_tagged self body = by_kind body (output_or_missing self.output)

  -- The items of a FETCH response, whatever its message.
  abbrev pub as_fetch : Data T → Option (Vec1 (MessageDataItem T))
  as_fetch (Data.fetch seq items) = some items
  as_fetch _ = none

  replace : FetchFirstTask T → Vec1 (MessageDataItem T) → FetchFirstTask T
  replace self items = record self { output = some items }

  takes : (self : FetchFirstTask T) (d : Data T) → Takes process_data as_fetch replace self d
  unfolding process_data replace
  takes self (Data.fetch seq items) = refl
  takes self _ = refl

  -- The output of the task, from the items that arrived.
  abbrev pub expected :
      List (Vec1 (MessageDataItem T)) → Result (Vec1 (MessageDataItem T)) (TaskError T)
  expected [] = err (missing_data "FETCH: items")
  expected (items ∷ rest) = ok (last_or rest items)

  output-expected :
      (xs : List (Vec1 (MessageDataItem T)))
      → output_or_missing (last_or (map some xs) none) ≡ expected xs
  output-expected [] = refl
  output-expected (x ∷ xs) = ap output_or_missing (last_or-map some xs x)

  -- A fetch of one message takes every FETCH response, whatever its number, and hands back the
  -- other responses in their order. At an OK completion its output is the items of the last
  -- FETCH response; without any it fails with the missing data "FETCH: items".
  pub fetch_first_transcript :
      (id : ℕ) (names : MacroOrMessageDataItemNames T) (ds : List (Data T)) (body : StatusBody T)
      → body.kind ≡ StatusKind.ok
      → let after = feed process_data (new id names) ds in
        (after.0 ≡ unwanted as_fetch ds)
        × (process_tagged after.1 body ≡ expected (wanted as_fetch ds))
  unfolding new process_tagged replace
  fetch_first_transcript id names ds body done =
      let (back, output) =
        feed_last process_data as_fetch replace takes (λ t. t.output) some (λ t x. refl)
          (new id names) ds in
      (
        back,
        by_kind-ok body _ done ∙ ap output_or_missing output ∙ output-expected (wanted as_fetch ds),
      )

unfoldable pub task : (T : ImapTypes) → Task T (Result (Vec1 (MessageDataItem T)) (TaskError T))
unfolding command_body process_data process_tagged
task T = record {
  Self = FetchFirstTask T;
  command_body = command_body;
  process_data = process_data;
  process_untagged = process_default;
  process_continuation_request = process_default;
  process_continuation_request_authenticate = process_authenticate_default;
  process_bye = process_default;
  process_tagged = process_tagged;
}
