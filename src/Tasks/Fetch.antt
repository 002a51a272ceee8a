-- ===== src/Tasks/Fetch.antt =====
-- src/tasks/tasks/fetch.rs, `FetchTask`
pub mod Collected
use imap_client.Prelude.{
  ℕ, Bool, true, Option, some, none, List, [], ◌∷◌, ◌++◌, map, Result, ok, ℕ_discrete,
}
use imap_client.Imap.{
  ImapTypes, CommandBody, Data, StatusBody, FetchModifier, MacroOrMessageDataItemNames,
  MessageDataItem, Envelope, Vec1,
}
use imap_client.Task.{Task, process_default, process_authenticate_default}
use imap_client.Prelude.HashMap.{HashMap, HashSet, Iteration, get, insert, insert_all, extend}
use imap_client.Tasks.{TaskError, by_kind}

pub record FetchTask (T : ImapTypes) : Type 0 where
  pub sequence_set : T.SequenceSet
  pub macro_or_item_names : MacroOrMessageDataItemNames T
  pub uid : Bool
  pub modifiers : List (FetchModifier T)
  pub output : HashMap (HashSet (MessageDataItem T))

module _ {T : ImapTypes} where
  -- `derive(PartialEq, Eq)` of `MessageDataItem`.
  envelope_discrete : Discrete (Envelope T)
  envelope_discrete = hlevel (T.n_string_discrete, T.other_discrete)

  unfoldable pub item_discrete : Discrete (MessageDataItem T)
  unfolding envelope_discrete
  item_discrete = hlevel (ℕ_discrete, T.date_time_discrete, envelope_discrete, T.other_discrete)

  unfoldable pub new : T.SequenceSet → MacroOrMessageDataItemNames T → FetchTask T
  new sequence_set items = record {
    sequence_set = sequence_set;
    macro_or_item_names = items;
    uid = true;
    modifiers = [];
    output = [];
  }

  unfoldable pub set_uid : FetchTask T → Bool → FetchTask T
  set_uid self uid = record self { uid = uid }

  unfoldable pub with_uid : FetchTask T → Bool → FetchTask T
  unfolding set_uid
  with_uid self uid = set_uid self uid

  pub set_modifiers : FetchTask T → List (FetchModifier T) → FetchTask T
  set_modifiers self modifiers = record self { modifiers = modifiers }

  pub with_modifiers : FetchTask T → List (FetchModifier T) → FetchTask T
  with_modifiers self modifiers = record self { modifiers = modifiers }

  pub with_changed_since : FetchTask T → ℕ → FetchTask T
  with_changed_since self modseq = record self {
    modifiers = self.modifiers ++ FetchModifier.changed_since modseq ∷ [];
  }

  pub with_vanished : FetchTask T → FetchTask T
  with_vanished self = record self { modifiers = self.modifiers ++ FetchModifier.vanished ∷ [] }

  pub command_body : FetchTask T → Option (CommandBody T)
  command_body self =
      some (CommandBody.fetch self.modifiers self.sequence_set self.macro_or_item_names self.uid)

  -- The new entry of a message: `get_mut` and `extend`, or `insert`.
  abbrev pub add_items :
      Option (HashSet (MessageDataItem T)) → Vec1 (MessageDataItem T) → HashSet (MessageDataItem T)
  add_items (some prev_items) items = extend item_discrete items prev_items
  add_items none items = extend item_discrete items []

  pub process_data : FetchTask T → Data T → Option (Data T) × FetchTask T
  unfolding item_discrete
  process_data self (Data.fetch seq items) = (
    none,
    record self { output = insert seq (add_items (get seq self.output) items) self.output },
  )
  process_data self d = (some d, self)

  module _ (I : Iteration) where
    -- One entry of the output, its items in the order of the iteration.
    abbrev to_vec1 : ℕ × HashSet (MessageDataItem T) → ℕ × Vec1 (MessageDataItem T)
    to_vec1 (key, val) = (key, I.iter (MessageDataItem T) val)

    pub process_tagged :
        FetchTask T → StatusBody T → Result (HashMap (Vec1 (MessageDataItem T))) (TaskError T)
    process_tagged self body =
        by_kind body (ok (insert_all (map to_vec1 (I.iter _ self.output)) []))

unfoldable pub task :
    (I : Iteration) (T : ImapTypes)
    → Task T (Result (HashMap (Vec1 (MessageDataItem T))) (TaskError T))
unfolding command_body process_data process_tagged
task I T = record {
  Self = FetchTask T;
  command_body = command_body;
  process_data = process_data;
  process_untagged = process_default;
  process_continuation_request = process_default;
  process_continuation_request_authenticate = process_authenticate_default;
  process_bye = process_default;
  process_tagged = process_tagged I;
}
