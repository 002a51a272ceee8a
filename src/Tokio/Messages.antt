-- ===== src/Tokio/Messages.antt =====
-- The low-level API of src/client/tokio.rs on messages: STORE, FETCH of one message, COPY and MOVE.
use imap_client.Prelude.{ℕ, Bool, true, false, Option, List}
use imap_client.Prelude.HashMap.{HashMap}
use imap_client.Imap.{Flag, MacroOrMessageDataItemNames, MessageDataItem, StoreType, Vec1}
use imap_client.Tasks.Library.{TaskType, all_tasks}
use imap_client.Tasks.Copy
use imap_client.Tasks.FetchFirst
use imap_client.Tasks.Move
use imap_client.Tasks.PostAppendCheck
use imap_client.Tasks.PostAppendNoOp
use imap_client.Tasks.SilentStore
use imap_client.Tasks.Store
use imap_client.Tokio.Api.{Environment, Method, TryInto, ◌>>=◌, converted, run}

module _ (E : Environment) where
  open E use {T}

  -- What a STORE or a FETCH returns: the items of each message.
  abbrev pub Items : Type 0
  Items = HashMap (Vec1 (MessageDataItem T))

  unfoldable pub _store : T.SequenceSet → StoreType T → List (Flag T) → Bool → Method E Items
  unfolding all_tasks
  _store sequence_set kind flags uid =
      run TaskType.store (Store.with_uid (Store.new sequence_set kind flags) uid)

  unfoldable pub store : T.SequenceSet → StoreType T → List (Flag T) → Method E Items
  store sequence_set kind flags = _store sequence_set kind flags false

  unfoldable pub uid_store : T.SequenceSet → StoreType T → List (Flag T) → Method E Items
  uid_store sequence_set kind flags = _store sequence_set kind flags true

  unfoldable pub _silent_store :
      T.SequenceSet → StoreType T → List (Flag T) → Bool → Method E (Unit {0})
  unfolding all_tasks
  _silent_store sequence_set kind flags uid =
      run TaskType.silent_store
        (SilentStore.silent (Store.with_uid (Store.new sequence_set kind flags) uid))

  unfoldable pub silent_store : T.SequenceSet → StoreType T → List (Flag T) → Method E (Unit {0})
  silent_store sequence_set kind flags = _silent_store sequence_set kind flags false

  unfoldable pub uid_silent_store :
      T.SequenceSet → StoreType T → List (Flag T) → Method E (Unit {0})
  uid_silent_store sequence_set kind flags = _silent_store sequence_set kind flags true

  unfoldable pub post_append_noop : Method E (Option ℕ)
  unfolding all_tasks
  post_append_noop = run TaskType.post_append_no_op PostAppendNoOp.new

  unfoldable pub post_append_check : Method E (Option ℕ)
  unfolding all_tasks
  post_append_check = run TaskType.post_append_check PostAppendCheck.new

  unfoldable pub _fetch_first :
      ℕ → MacroOrMessageDataItemNames T → Bool → Method E (Vec1 (MessageDataItem T))
  unfolding all_tasks
  _fetch_first id items uid =
      run TaskType.fetch_first (FetchFirst.with_uid (FetchFirst.new id items) uid)

  unfoldable pub fetch_first :
      ℕ → MacroOrMessageDataItemNames T → Method E (Vec1 (MessageDataItem T))
  fetch_first id items = _fetch_first id items false

  unfoldable pub uid_fetch_first :
      ℕ → MacroOrMessageDataItemNames T → Method E (Vec1 (MessageDataItem T))
  uid_fetch_first id items = _fetch_first id items true

  unfoldable pub _copy : T.SequenceSet → TryInto E T.Mailbox → Bool → Method E (Unit {0})
  unfolding all_tasks
  _copy sequence_set mailbox uid = do
    mbox ← converted mailbox
    run TaskType.copy (Copy.with_uid (Copy.new sequence_set mbox) uid)

  unfoldable pub copy : T.SequenceSet → TryInto E T.Mailbox → Method E (Unit {0})
  copy sequence_set mailbox = _copy sequence_set mailbox false

  unfoldable pub uid_copy : T.SequenceSet → TryInto E T.Mailbox → Method E (Unit {0})
  uid_copy sequence_set mailbox = _copy sequence_set mailbox true

  unfoldable pub _move : T.SequenceSet → TryInto E T.Mailbox → Bool → Method E (Unit {0})
  unfolding all_tasks
  _move sequence_set mailbox uid = do
    mbox ← converted mailbox
    run TaskType.move (Move.with_uid (Move.new sequence_set mbox) uid)

  unfoldable pub move : T.SequenceSet → TryInto E T.Mailbox → Method E (Unit {0})
  move sequence_set mailbox = _move sequence_set mailbox false

  unfoldable pub uid_move : T.SequenceSet → TryInto E T.Mailbox → Method E (Unit {0})
  uid_move sequence_set mailbox = _move sequence_set mailbox true
