-- ===== src/Tasks/Search.antt =====
-- src/tasks/tasks/search.rs
use imap_client.Prelude.{
  ℕ, Bool, true, Option, some, none, List, [], ◌∷◌, Result, ok, ◌≡◌, refl, ap, ◌∙◌,
}
use imap_client.Imap.{ImapTypes, CommandBody, Data, StatusBody, StatusKind, SearchKey, Vec1}
use imap_client.Task.{Task, process_default, process_authenticate_default}
use imap_client.Task.Feed.{feed, wanted, last_or, feed_field}
use imap_client.Tasks.{TaskError, by_kind, by_kind-ok}

pub record SearchTask (T : ImapTypes) : Type 0 where
  pub criteria : Vec1 (SearchKey T)
  pub uid : Bool
  pub output : List ℕ

module _ {T : ImapTypes} where
  -- `Default::default`
  unfoldable default : SearchTask T
  default = record { criteria = SearchKey.all ∷ []; uid = true; output = [] }

  unfoldable pub new : Vec1 (SearchKey T) → SearchTask T
  unfolding default
  new criteria = record default { criteria = criteria }

  unfoldable pub set_uid : SearchTask T → Bool → SearchTask T
  set_uid self uid = record self { uid = uid }

  unfoldable pub with_uid : SearchTask T → Bool → SearchTask T
  unfolding set_uid
  with_uid self uid = set_uid self uid

  pub command_body : SearchTask T → Option (CommandBody T)
  command_body self = some (CommandBody.search none self.criteria self.uid)

  pub process_data : SearchTask T → Data T → Option (Data T) × SearchTask T
  process_data self (Data.search ids _) = (none, record self { output = ids })
  process_data self d = (some d, self)

  pub process_tagged : SearchTask T → StatusBody T → Result (List ℕ) (TaskError T)
  process_tagged self body = by_kind body (ok self.output)

  -- The numbers of a SEARCH response.
  abbrev pub as_search : Data T → Option (List ℕ)
  as_search (Data.search ids _) = some ids
  as_search _ = none

  output :
      (self : SearchTask T) (d : Data T)
      → (process_data self d).1.output ≡ elim (as_search d) [ none ↦ self.output | some x ↦ x ]
  unfolding process_data
  output self (Data.search ids _) = refl
  output self _ = refl

  -- The output of any SEARCH task after the data and an OK completion.
  pub search_output :
      (self : SearchTask T) (ds : List (Data T)) (body : StatusBody T)
      → body.kind ≡ StatusKind.ok
      → process_tagged (feed process_data self ds).1 body
        ≡ ok (last_or (wanted as_search ds) self.output)
  unfolding process_tagged
  search_output self ds body done =
      by_kind-ok body _ done
      ∙ ap ok (feed_field process_data (λ t. t.output) as_search output self ds)

unfoldable pub task : (T : ImapTypes) → Task T (Result (List ℕ) (TaskError T))
unfolding command_body process_data process_tagged
task T = record {
  Self = SearchTask T;
  command_body = command_body;
  process_data = process_data;
  process_untagged = process_default;
  process_continuation_request = process_default;
  process_continuation_request_authenticate = process_authenticate_default;
  process_bye = process_default;
  process_tagged = process_tagged;
}
