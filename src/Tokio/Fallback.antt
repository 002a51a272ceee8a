-- ===== src/Tokio/Fallback.antt =====
-- The high-level API of src/client/tokio.rs: what it does where the server lacks UIDPLUS or MOVE.
use mathlib.Core.Option
use imap_client.Prelude.{
  ℕ, Bool, true, false, Option, none, some, List, [], ◌∷◌, ok, err, if◌then◌else◌,
}
use imap_client.Imap.{Flag, SearchKey, StoreType}
use imap_client.Client.{ext_uidplus_supported, ext_move_supported}
use imap_client.Tasks.{missing_data}
use imap_client.Tokio.Api.{
  Environment, Method, TryInto, ClientError, pure, throw, panic, ◌>>=◌, ◌>>◌, gets,
}
use imap_client.Tokio.Commands.{select, search, expunge}
use imap_client.Tokio.Messages.{post_append_noop, post_append_check, _copy, _move, _silent_store}
use imap_client.Tokio.Login.{append, appenduid}

-- `into_iter().next()`
abbrev pub first : {A : Type 0} → List A → Option A
first [] = none
first (x ∷ xs) = some x

module _ (E : Environment) where
  open E use {T}

  -- `ok_or(..)?`
  abbrev pub found : Option ℕ → Method E ℕ
  found (some seq) = pure seq
  found none = throw (ClientError.resolve_task (missing_data "APPENDUID: seq"))

  abbrev pub seq_or_check : Option ℕ → Method E ℕ
  seq_or_check (some seq) = pure seq
  seq_or_check none = post_append_check E >>= found

  abbrev pub seq_or_noop : Option ℕ → Method E ℕ
  seq_or_noop (some seq) = pure seq
  seq_or_noop none = post_append_noop E >>= seq_or_check

  -- `seq.try_into().unwrap()`, and the search for that message.
  abbrev pub uid_of_seq : ℕ → Method E (List ℕ)
  uid_of_seq seq = elim (E.sequence_set_try_from_one seq) [
    | ok set ↦ search E (SearchKey.sequence_set set ∷ [])
    | err e ↦ panic
  ]

  unfoldable pub appenduid_or_fallback :
      TryInto E T.Mailbox → List (Flag T) → List ℕ → Method E (Option ℕ)
  appenduid_or_fallback mailbox flags message = do
    supported ← gets ext_uidplus_supported
    if supported
        then (do
          appended ← appenduid E mailbox flags message
          pure (Option.map (λ u. u.0) appended))
        else do
          _ ← select E mailbox
          seq ← append E mailbox flags message
          seq ← seq_or_noop seq
          uids ← uid_of_seq seq
          pure (first uids)

  unfoldable pub _move_or_fallback :
      T.SequenceSet → TryInto E T.Mailbox → Bool → Method E (Unit {0})
  _move_or_fallback sequence_set mailbox uid = do
    supported ← gets ext_move_supported
    if supported then _move E sequence_set mailbox uid else do
      _copy E sequence_set mailbox uid
      _silent_store E sequence_set StoreType.add (Flag.deleted ∷ []) uid
      _ ← expunge E
      pure tt

  unfoldable pub move_or_fallback : T.SequenceSet → TryInto E T.Mailbox → Method E (Unit {0})
  move_or_fallback sequence_set mailbox = _move_or_fallback sequence_set mailbox false

  unfoldable pub uid_move_or_fallback : T.SequenceSet → TryInto E T.Mailbox → Method E (Unit {0})
  uid_move_or_fallback sequence_set mailbox = _move_or_fallback sequence_set mailbox true
