-- ===== src/Tasks/Sort.antt =====
-- src/tasks/tasks/sort.rs
use imap_client.Prelude.{
  ℕ, Bool, true, Option, some, none, List, [], ◌∷◌, ◌≡◌, refl, map, ap, ◌∙◌, Result, ok, err,
}
use imap_client.Imap.{
  ImapTypes, CommandBody, Data, StatusBody, StatusKind, SearchKey, Vec1, SortCriterion,
}
use imap_client.Task.{Task, process_default, process_authenticate_default}
use imap_client.Task.Feed.{Takes, feed, unwanted, wanted, feed_last, last_or, last_or-map}
use imap_client.Tasks.{TaskError, by_kind, by_kind-ok, missing_data}

pub record SortTask (T : ImapTypes) : Type 0 where
  pub sort_criteria : Vec1 SortCriterion
  pub charset : T.Charset
  pub search_criteria : Vec1 (SearchKey T)
  pub uid : Bool
  pub output : Option (List ℕ)

module _ {T : ImapTypes} where
  pub new : Vec1 SortCriterion → Vec1 (SearchKey T) → SortTask T
  new sort_criteria search_criteria = record {
    sort_criteria = sort_criteria;
    charset = T.utf_8;
    search_criteria = search_criteria;
    uid = true;
    output = none;
  }

  pub set_charset : SortTask T → T.Charset → SortTask T
  set_charset self charset = record self { charset = charset }

  pub with_charset : SortTask T → T.Charset → SortTask T
  unfolding set_charset
  with_charset self charset = set_charset self charset

  pub set_uid : SortTask T → Bool → SortTask T
  set_uid self uid = record self { uid = uid }

  pub with_uid : SortTask T → Bool → SortTask T
  unfolding set_uid
  with_uid self uid = set_uid self uid

  pub command_body : SortTask T → Option (CommandBody T)
  command_body self =
      some (CommandBody.sort self.sort_criteria self.charset self.search_criteria self.uid)

  pub process_data : SortTask T → Data T → Option (Data T) × SortTask T
  process_data self (Data.sort ids _) = (none, record self { output = some ids })
  process_data self d = (some d, self)

  abbrev output_or_missing : Option (List ℕ) → Result (List ℕ) (TaskError T)
  output_or_missing (some output) = ok output
  output_or_missing none = err (missing_data "SORT")

  pub process_tagged : SortTask T → StatusBody T → Result (List ℕ) (TaskError T)
  process_tagged self body = by_kind body (output_or_missing self.output)

  -- The payload of the response that the task waits for.
  abbrev pub as_sort : Data T → Option (List ℕ)
  as_sort (Data.sort ids _) = some ids
  as_sort _ = none

  replace : SortTask T → List ℕ → SortTask T
  replace self ids = record self { output = some ids }

  takes : (self : SortTask T) (d : Data T) → Takes process_data as_sort replace self d
  unfolding process_data replace
  takes self (Data.sort ids _) = refl
  takes self _ = refl

  -- The output of the task, from the payloads that arrived.
  abbrev pub expected : List (List ℕ) → Result (List ℕ) (TaskError T)
  expected [] = err (missing_data "SORT")
  expected (payload ∷ payloads) = ok (last_or payloads payload)

  output-expected :
      (payloads : List (List ℕ))
      → output_or_missing (last_or (map some payloads) none) ≡ expected payloads
  output-expected [] = refl
  output-expected (x ∷ xs) = ap output_or_missing (last_or-map some xs x)

  -- A SORT task hands back all responses but the SORT responses, in their order. At an OK
  -- completion its output is the numbers of the last SORT response; without any it fails with
  -- the missing data "SORT".
  sort_transcript :
      (sort_criteria : Vec1 SortCriterion) (search_criteria : Vec1 (SearchKey T))
      (ds : List (Data T)) (body : StatusBody T)
      → body.kind ≡ StatusKind.ok
      → let after = feed process_data (new sort_criteria search_criteria) ds in
        (after.0 ≡ unwanted as_sort ds)
        × (process_tagged after.1 body ≡ expected (wanted as_sort ds))
  unfolding new process_tagged replace
  sort_transcript sort_criteria search_criteria ds body done =
      let (back, output) =
        feed_last process_data as_sort replace takes (λ t. t.output) some (λ t x. refl)
          (new sort_criteria search_criteria) ds in
      (
        back,
        by_kind-ok body _ done ∙ ap output_or_missing output ∙ output-expected (wanted as_sort ds),
      )

unfoldable pub task : (T : ImapTypes) → Task T (Result (List ℕ) (TaskError T))
unfolding command_body process_data process_tagged
task T = record {
  Self = SortTask T;
  command_body = command_body;
  process_data = process_data;
  process_untagged = process_default;
  process_continuation_request = process_default;
  process_continuation_request_authenticate = process_authenticate_default;
  process_bye = process_default;
  process_tagged = process_tagged;
}
