-- ===== src/Tokio/Commands.antt =====
-- The low-level API of src/client/tokio.rs: one task for each method.
use imap_client.Prelude.{
  ℕ, Bool, true, false, Option, none, some, List, [], ◌∷◌, not, any, ◌||◌, if◌then◌else◌,
}
use imap_client.Imap.{CapabilityEnable, SearchKey, SortCriterion, SortKey, Vec1}
use imap_client.Tasks.Library.{TaskType, all_tasks}
use imap_client.Tasks.Check
use imap_client.Tasks.Create
use imap_client.Tasks.Delete
use imap_client.Tasks.Enable
use imap_client.Tasks.Expunge
use imap_client.Tasks.ListMailboxes
use imap_client.Tasks.NoOp
use imap_client.Tasks.Search
use imap_client.Tasks.Select
use imap_client.Tasks.Sort
use imap_client.Tasks.ThreadMessages
use imap_client.Client.{ext_enable_supported, ext_condstore_supported, condstore_enabled}
use imap_client.Tokio.Api.{
  Environment, Method, TryInto, pure, panic, ◌>>=◌, ◌>>◌, gets, modify, converted, run,
}

-- `Vec1::try_from`, with `none` for the error.
abbrev pub vec1_try_from : {A : Type 0} → List A → Option (Vec1 A)
vec1_try_from [] = none
vec1_try_from (x ∷ xs) = some (x ∷ xs)

-- `is_empty` and the default, or `Vec1::try_from(..).unwrap()`.
abbrev pub or_default : {E : Environment} {A : Type 0} → List A → A → Method E (Vec1 A)
or_default [] default = pure (default ∷ [])
or_default (x ∷ xs) default = elim (vec1_try_from (x ∷ xs)) [ none ↦ panic | some v ↦ pure v ]

module _ (E : Environment) where
  open E use {T}

  -- `capabilities.contains(&CapabilityEnable::CondStore)`
  abbrev is_condstore : CapabilityEnable T → Bool
  is_condstore CapabilityEnable.cond_store = true
  is_condstore _ = false

  abbrev pub contains_condstore : Option (List (CapabilityEnable T)) → Bool
  contains_condstore none = false
  contains_condstore (some capabilities) = any is_condstore capabilities

  abbrev pub enable_supported :
      List (CapabilityEnable T) → Method E (Option (List (CapabilityEnable T)))
  unfolding all_tasks
  enable_supported [] = pure none
  enable_supported (c ∷ cs) = elim (vec1_try_from (c ∷ cs)) [
    | none ↦ panic
    | some capabilities ↦ run TaskType.enable (Enable.new capabilities)
  ]

  unfoldable pub enable : List (CapabilityEnable T) → Method E (Option (List (CapabilityEnable T)))
  unfolding all_tasks
  enable capabilities = do
    supported ← gets ext_enable_supported
    if supported then enable_supported capabilities else pure none

  unfoldable pub enable_condstore_if_supported : Method E Bool
  enable_condstore_if_supported = do
    condstore ← gets ext_condstore_supported
    supported ← gets ext_enable_supported
    if not condstore || not supported then pure false else do
      capabilities ← enable (CapabilityEnable.cond_store ∷ [])
      let enabled = contains_condstore capabilities
      modify (λ s. record s { condstore_enabled = enabled })
      pure enabled

  unfoldable pub create : TryInto E T.Mailbox → Method E (Unit {0})
  unfolding all_tasks
  create mailbox = do mbox ← converted mailbox; run TaskType.create (Create.new mbox)

  unfoldable pub list :
      TryInto E T.Mailbox → TryInto E T.ListMailbox → Method E (List (ListMailboxes.Listed T))
  unfolding all_tasks
  list mailbox mailbox_wildcard = do
    mbox ← converted mailbox
    mbox_wcard ← converted mailbox_wildcard
    run TaskType.list (ListMailboxes.new mbox mbox_wcard)

  unfoldable pub select : TryInto E T.Mailbox → Method E (Select.SelectDataUnvalidated T)
  unfolding all_tasks
  select mailbox = do
    mbox ← converted mailbox
    enabled ← gets condstore_enabled
    run TaskType.select (Select.with_condstore (Select.new mbox) enabled)

  unfoldable pub examine : TryInto E T.Mailbox → Method E (Select.SelectDataUnvalidated T)
  unfolding all_tasks
  examine mailbox = do
    mbox ← converted mailbox
    enabled ← gets condstore_enabled
    run TaskType.select (Select.with_condstore (Select.read_only mbox) enabled)

  unfoldable pub expunge : Method E (List ℕ)
  unfolding all_tasks
  expunge = run TaskType.expunge Expunge.new

  unfoldable pub delete : TryInto E T.Mailbox → Method E (Unit {0})
  unfolding all_tasks
  delete mailbox = do mbox ← converted mailbox; run TaskType.delete (Delete.new mbox)

  unfoldable pub _search : List (SearchKey T) → Bool → Method E (List ℕ)
  unfolding all_tasks
  _search criteria uid = do
    criteria ← or_default criteria SearchKey.all
    run TaskType.search (Search.with_uid (Search.new criteria) uid)

  unfoldable pub search : List (SearchKey T) → Method E (List ℕ)
  search criteria = _search criteria false

  unfoldable pub uid_search : List (SearchKey T) → Method E (List ℕ)
  uid_search criteria = _search criteria true

  unfoldable pub _sort : List SortCriterion → List (SearchKey T) → Bool → Method E (List ℕ)
  unfolding all_tasks
  _sort sort_criteria search_criteria uid = do
    sort ← or_default sort_criteria (record { reverse = true; key = SortKey.date })
    search ← or_default search_criteria SearchKey.all
    run TaskType.sort (Sort.with_uid (Sort.new sort search) uid)

  unfoldable pub sort : List SortCriterion → List (SearchKey T) → Method E (List ℕ)
  sort sort_criteria search_criteria = _sort sort_criteria search_criteria false

  unfoldable pub uid_sort : List SortCriterion → List (SearchKey T) → Method E (List ℕ)
  uid_sort sort_criteria search_criteria = _sort sort_criteria search_criteria true

  unfoldable pub _thread :
      T.ThreadingAlgorithm → List (SearchKey T) → Bool → Method E (List T.Thread)
  unfolding all_tasks
  _thread alg search_criteria uid = do
    search ← or_default search_criteria SearchKey.all
    run TaskType.thread (ThreadMessages.with_uid (ThreadMessages.new alg search) uid)

  unfoldable pub thread : T.ThreadingAlgorithm → List (SearchKey T) → Method E (List T.Thread)
  thread algorithm search_criteria = _thread algorithm search_criteria false

  unfoldable pub uid_thread : T.ThreadingAlgorithm → List (SearchKey T) → Method E (List T.Thread)
  uid_thread algorithm search_criteria = _thread algorithm search_criteria true

  unfoldable pub check : Method E (Unit {0})
  unfolding all_tasks
  check = run TaskType.check Check.new

  unfoldable pub noop : Method E (Unit {0})
  unfolding all_tasks
  noop = run TaskType.no_op NoOp.new
