-- ===== src/Tokio/Fetch.antt =====
-- FETCH in the high-level API of src/client/tokio.rs: a UID FETCH is returned by UID.
use imap_client.Prelude.{
  ℕ, Bool, true, false, Option, none, some, List, [], ◌∷◌, ◌++◌, find_map, if◌then◌else◌,
}
use imap_client.Prelude.HashMap.{insert}
use imap_client.Imap.{
  FetchModifier, MacroOrMessageDataItemNames, macro, message_data_item_names, MessageDataItem,
  MessageDataItemName, Vec1,
}
use imap_client.Tasks.Library.{TaskType, all_tasks, library_task}
use imap_client.Tasks.Fetch
use imap_client.Tokio.Api.{Environment, Method, pure, ◌>>=◌, run}
use imap_client.Tokio.Messages.{Items}

module _ (E : Environment) where
  open E use {I, T}

  -- A macro is expanded into the items that it stands for.
  abbrev pub expanded : MacroOrMessageDataItemNames T → List (MessageDataItemName T)
  expanded (macro m) = E.expand m
  expanded (message_data_item_names items) = items

  -- The task, with the UID asked for in the case of UID FETCH.
  abbrev pub fetch_task :
      T.SequenceSet
      → List (MessageDataItemName T)
      → Bool
      → Option (List (FetchModifier T))
      → (library_task I T TaskType.fetch).Self
  unfolding all_tasks
  fetch_task sequence_set items uid modifiers =
      let items' = if uid then items ++ MessageDataItemName.uid ∷ [] else items in
      let task = Fetch.with_uid (Fetch.new sequence_set (message_data_item_names items')) uid in
      elim modifiers [ none ↦ task | some m ↦ Fetch.set_modifiers task m ]

  abbrev pub uid_of : MessageDataItem T → Option ℕ
  uid_of (MessageDataItem.uid uid) = some uid
  uid_of _ = none

  -- The loop that moves each entry to its UID; an entry without one is skipped.
  unfoldable pub by_uid : List (ℕ × Vec1 (MessageDataItem T)) → Items E → Items E
  by_uid [] uid_map = uid_map
  by_uid ((seq, items) ∷ entries) uid_map =
      by_uid entries
        (elim (find_map uid_of items) [ some uid ↦ insert uid items uid_map | none ↦ uid_map ])

  unfoldable pub _fetch :
      T.SequenceSet
      → MacroOrMessageDataItemNames T
      → Bool
      → Option (List (FetchModifier T))
      → Method E (Items E)
  _fetch sequence_set items uid modifiers = do
    seq_map ← run TaskType.fetch (fetch_task sequence_set (expanded items) uid modifiers)
    if uid then pure (by_uid (I.iter _ seq_map) []) else pure seq_map

  unfoldable pub fetch : T.SequenceSet → MacroOrMessageDataItemNames T → Method E (Items E)
  fetch sequence_set items = _fetch sequence_set items false none

  unfoldable pub fetch_with_modifiers :
      T.SequenceSet → MacroOrMessageDataItemNames T → List (FetchModifier T) → Method E (Items E)
  fetch_with_modifiers sequence_set items modifiers =
      _fetch sequence_set items false (some modifiers)

  unfoldable pub uid_fetch : T.SequenceSet → MacroOrMessageDataItemNames T → Method E (Items E)
  uid_fetch sequence_set items = _fetch sequence_set items true none

  unfoldable pub uid_fetch_with_modifiers :
      T.SequenceSet → MacroOrMessageDataItemNames T → List (FetchModifier T) → Method E (Items E)
  uid_fetch_with_modifiers sequence_set items modifiers =
      _fetch sequence_set items true (some modifiers)
