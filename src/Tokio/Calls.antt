-- ===== src/Tokio/Calls.antt =====
-- The public methods of src/client/tokio.rs that run on a connection, as one type of calls.
use imap_client.Prelude.{ℕ, Bool, true, false, Option, none, some, List, ◌≡◌}
use imap_client.Imap.{
  CapabilityEnable, Flag, FetchModifier, MacroOrMessageDataItemNames, MessageDataItem, SearchKey,
  SortCriterion, StoreType, Vec1,
}
use imap_client.Client.FetchOrder.{Keys}
use imap_client.Tasks.ListMailboxes
use imap_client.Tasks.Select
use imap_client.Tasks.ServerId
use imap_client.Tokio.Api.{Environment, Method, TryInto}
use imap_client.Tokio.Commands
use imap_client.Tokio.Messages
use imap_client.Tokio.Needs.{Named}
use imap_client.Tokio.Messages.{Items}
use imap_client.Tokio.Login
use imap_client.Tokio.Fetch
use imap_client.Tokio.Fallback
use imap_client.Tokio.SortFallback

module _ (E : Environment) where
  open E use {T}

  pub data Call : Type 0 → Type 1 where
    enable : List (CapabilityEnable T) → Call (Option (List (CapabilityEnable T)))
    enable_condstore_if_supported : Call Bool
    create : TryInto E T.Mailbox → Call (Unit {0})
    list : TryInto E T.Mailbox → TryInto E T.ListMailbox → Call (List (ListMailboxes.Listed T))
    select : TryInto E T.Mailbox → Call (Select.SelectDataUnvalidated T)
    examine : TryInto E T.Mailbox → Call (Select.SelectDataUnvalidated T)
    expunge : Call (List ℕ)
    delete : TryInto E T.Mailbox → Call (Unit {0})
    search : List (SearchKey T) → Call (List ℕ)
    uid_search : List (SearchKey T) → Call (List ℕ)
    sort : List SortCriterion → List (SearchKey T) → Call (List ℕ)
    uid_sort : List SortCriterion → List (SearchKey T) → Call (List ℕ)
    thread : T.ThreadingAlgorithm → List (SearchKey T) → Call (List T.Thread)
    uid_thread : T.ThreadingAlgorithm → List (SearchKey T) → Call (List T.Thread)
    store : T.SequenceSet → StoreType T → List (Flag T) → Call (Items E)
    uid_store : T.SequenceSet → StoreType T → List (Flag T) → Call (Items E)
    silent_store : T.SequenceSet → StoreType T → List (Flag T) → Call (Unit {0})
    uid_silent_store : T.SequenceSet → StoreType T → List (Flag T) → Call (Unit {0})
    post_append_noop : Call (Option ℕ)
    post_append_check : Call (Option ℕ)
    fetch_first : ℕ → MacroOrMessageDataItemNames T → Call (Vec1 (MessageDataItem T))
    uid_fetch_first : ℕ → MacroOrMessageDataItemNames T → Call (Vec1 (MessageDataItem T))
    copy : T.SequenceSet → TryInto E T.Mailbox → Call (Unit {0})
    uid_copy : T.SequenceSet → TryInto E T.Mailbox → Call (Unit {0})
    move : T.SequenceSet → TryInto E T.Mailbox → Call (Unit {0})
    uid_move : T.SequenceSet → TryInto E T.Mailbox → Call (Unit {0})
    check : Call (Unit {0})
    noop : Call (Unit {0})
    refresh_capabilities : Call (Unit {0})
    login : TryInto E T.AString → TryInto E T.AString → Call (Unit {0})
    authenticate_plain : List ℕ → List ℕ → Call (Unit {0})
    authenticate_xoauth2 : List ℕ → List ℕ → Call (Unit {0})
    authenticate_oauthbearer : List ℕ → List ℕ → ℕ → List ℕ → Call (Unit {0})
    id : ServerId.Parameters T → Call (ServerId.Parameters T)
    append : TryInto E T.Mailbox → List (Flag T) → List ℕ → Call (Option ℕ)
    appenduid : TryInto E T.Mailbox → List (Flag T) → List ℕ → Call (Option (ℕ × ℕ))
    fetch : T.SequenceSet → MacroOrMessageDataItemNames T → Call (Items E)
    fetch_with_modifiers :
        T.SequenceSet → MacroOrMessageDataItemNames T → List (FetchModifier T) → Call (Items E)
    uid_fetch : T.SequenceSet → MacroOrMessageDataItemNames T → Call (Items E)
    uid_fetch_with_modifiers :
        T.SequenceSet → MacroOrMessageDataItemNames T → List (FetchModifier T) → Call (Items E)
    appenduid_or_fallback : TryInto E T.Mailbox → List (Flag T) → List ℕ → Call (Option ℕ)
    move_or_fallback : T.SequenceSet → TryInto E T.Mailbox → Call (Unit {0})
    uid_move_or_fallback : T.SequenceSet → TryInto E T.Mailbox → Call (Unit {0})
    sort_or_fallback :
        List SortCriterion
        → List (SearchKey T)
        → MacroOrMessageDataItemNames T
        → Call (List (Vec1 (MessageDataItem T)))
    uid_sort_or_fallback :
        List SortCriterion
        → List (SearchKey T)
        → MacroOrMessageDataItemNames T
        → Call (List (Vec1 (MessageDataItem T)))

  module _ (K : Keys T) where
    unfoldable pub invoke : {A : Type 0} → Call A → Method E A
    invoke (Call.enable a) = Commands.enable E a
    invoke Call.enable_condstore_if_supported = Commands.enable_condstore_if_supported E
    invoke (Call.create a) = Commands.create E a
    invoke (Call.list a b) = Commands.list E a b
    invoke (Call.select a) = Commands.select E a
    invoke (Call.examine a) = Commands.examine E a
    invoke Call.expunge = Commands.expunge E
    invoke (Call.delete a) = Commands.delete E a
    invoke (Call.search a) = Commands.search E a
    invoke (Call.uid_search a) = Commands.uid_search E a
    invoke (Call.sort a b) = Commands.sort E a b
    invoke (Call.uid_sort a b) = Commands.uid_sort E a b
    invoke (Call.thread a b) = Commands.thread E a b
    invoke (Call.uid_thread a b) = Commands.uid_thread E a b
    invoke (Call.store a b c) = Messages.store E a b c
    invoke (Call.uid_store a b c) = Messages.uid_store E a b c
    invoke (Call.silent_store a b c) = Messages.silent_store E a b c
    invoke (Call.uid_silent_store a b c) = Messages.uid_silent_store E a b c
    invoke Call.post_append_noop = Messages.post_append_noop E
    invoke Call.post_append_check = Messages.post_append_check E
    invoke (Call.fetch_first a b) = Messages.fetch_first E a b
    invoke (Call.uid_fetch_first a b) = Messages.uid_fetch_first E a b
    invoke (Call.copy a b) = Messages.copy E a b
    invoke (Call.uid_copy a b) = Messages.uid_copy E a b
    invoke (Call.move a b) = Messages.move E a b
    invoke (Call.uid_move a b) = Messages.uid_move E a b
    invoke Call.check = Commands.check E
    invoke Call.noop = Commands.noop E
    invoke Call.refresh_capabilities = Login.refresh_capabilities E
    invoke (Call.login a b) = Login.login E a b
    invoke (Call.authenticate_plain a b) = Login.authenticate_plain E a b
    invoke (Call.authenticate_xoauth2 a b) = Login.authenticate_xoauth2 E a b
    invoke (Call.authenticate_oauthbearer a b c d) = Login.authenticate_oauthbearer E a b c d
    invoke (Call.id a) = Login.id E a
    invoke (Call.append a b c) = Login.append E a b c
    invoke (Call.appenduid a b c) = Login.appenduid E a b c
    invoke (Call.fetch a b) = Fetch.fetch E a b
    invoke (Call.fetch_with_modifiers a b c) = Fetch.fetch_with_modifiers E a b c
    invoke (Call.uid_fetch a b) = Fetch.uid_fetch E a b
    invoke (Call.uid_fetch_with_modifiers a b c) = Fetch.uid_fetch_with_modifiers E a b c
    invoke (Call.appenduid_or_fallback a b c) = Fallback.appenduid_or_fallback E a b c
    invoke (Call.move_or_fallback a b) = Fallback.move_or_fallback E a b
    invoke (Call.uid_move_or_fallback a b) = Fallback.uid_move_or_fallback E a b
    invoke (Call.sort_or_fallback a b c) = SortFallback.sort_or_fallback E K a b c
    invoke (Call.uid_sort_or_fallback a b c) = SortFallback.uid_sort_or_fallback E K a b c

module _ {E : Environment} where
  -- The calls that save the capabilities of the server.
  abbrev pub saves : {A : Type 0} → Call E A → Bool
  saves Call.refresh_capabilities = true
  saves (Call.login _ _) = true
  saves (Call.authenticate_plain _ _) = true
  saves (Call.authenticate_xoauth2 _ _) = true
  saves (Call.authenticate_oauthbearer _ _ _ _) = true
  saves _ = false

  abbrev pub enables_condstore : {A : Type 0} → Call E A → Bool
  enables_condstore Call.enable_condstore_if_supported = true
  enables_condstore _ = false

  abbrev pub may_panic : {A : Type 0} → Call E A → Bool
  may_panic (Call.appenduid_or_fallback _ _ _) = true
  may_panic _ = false

  -- The command of an extension that a call sends because the caller asks for it by its name.
  abbrev pub named : {A : Type 0} → Call E A → Option Named
  named (Call.move _ _) = some Named.move
  named (Call.uid_move _ _) = some Named.move
  named (Call.sort _ _) = some Named.sort
  named (Call.uid_sort _ _) = some Named.sort
  named (Call.thread _ _) = some Named.thread
  named (Call.uid_thread _ _) = some Named.thread
  named _ = none

  abbrev pub Asks : {A : Type 0} → Call E A → Named → Type 0
  Asks call n = named call ≡ some n
