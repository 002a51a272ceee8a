-- ===== src/Tokio/Parts.antt =====
-- What is closed under the steps of methods holds of the methods of src/client/tokio.rs that others
-- call, and of those that do more than resolve one task.
use imap_client.Prelude.{
  ℕ, Bool, false, Option, none, some, List, [], ◌∷◌, not, ◌||◌, Result-cases, inl, inr, ok, true,
  ◌≡◌, ◌⊎◌, refl,
}
use imap_client.Prelude.HashMap.{insert_all}
use imap_client.Imap.{
  Flag, StoreType, FetchModifier, CapabilityEnable, MacroOrMessageDataItemNames,
  message_data_item_names, MessageDataItemName, SearchKey, SortCriterion, Vec1, Capability,
}
use imap_client.Client.FetchOrder.{Keys}
use imap_client.Client.{
  ext_enable_supported, ext_condstore_supported, ext_move_supported, ext_sort_supported,
  ext_binary_supported, ext_uidplus_supported,
}
use imap_client.Tasks.Library.{TaskType, all_tasks, library_task}
use imap_client.Tokio.Api.{Environment, TokioClient, TryInto, run}
use imap_client.Tasks.Append
use imap_client.Tasks.AppendUid
use imap_client.Tasks.Select
use imap_client.Tokio.Needs.{Named, TaskNeeds, static-Needs}
use imap_client.Tokio.Commands
use imap_client.Tokio.Messages
use imap_client.Tokio.Messages.{Items}
use imap_client.Tokio.Login
use imap_client.Tokio.Fetch
use imap_client.Tokio.Fallback
use imap_client.Tokio.SortFallback
use imap_client.Tokio.Closed.{
  Closed, Holds, bind-Holds, with-Holds, default-Holds, if-Holds, if-at, with-at, default-at,
  run-at, run-Holds,
}

module _ {E : Environment} {S F P : Type 0} {X : Named → Type 0} (K : Keys E.T)
    (closed : Closed E S F P X) where
  open E use {T}

  pub runs :
      (t : TaskType) (task : (library_task E.I T t).Self)
      → ((c : TokioClient E) → TaskNeeds E X c.state t task)
      → Holds closed (run {E = E} t task)
  runs = run-Holds closed

  pub enable-Holds : (cs : List (CapabilityEnable T)) → Holds closed (Commands.enable E cs)
  unfolding Commands.enable all_tasks
  enable-Holds [] c =
      if-Holds closed (ext_enable_supported c.state) (λ c. closed.same c _) (λ c. closed.same c _) c
  enable-Holds (x ∷ cs) c =
      if-at closed (ext_enable_supported c.state) _ _ c (λ e. run-at closed c TaskType.enable _ e)
        (λ _. closed.same c _)

  pub condstore-Holds : F → Holds closed (Commands.enable_condstore_if_supported E)
  unfolding Commands.enable_condstore_if_supported
  condstore-Holds f c =
      if-Holds closed (not (ext_condstore_supported c.state) || not (ext_enable_supported c.state))
        (λ c. closed.same c _)
        (bind-Holds closed (Commands.enable E (CapabilityEnable.cond_store ∷ [])) _ (enable-Holds _)
          (λ capabilities.
            bind-Holds closed _ _
              (λ c'. closed.enables f c' (Commands.contains_condstore E capabilities))
              (λ _ c'. closed.same c' (ok (Commands.contains_condstore E capabilities)))))
        c

  pub _search-Holds :
      (criteria : List (SearchKey T)) (uid : Bool) → Holds closed (Commands._search E criteria uid)
  unfolding Commands._search all_tasks
  _search-Holds criteria uid =
      default-Holds closed criteria SearchKey.all _ (λ criteria. runs TaskType.search _ (λ c. tt))

  pub _sort-at :
      (sort_criteria : List SortCriterion) (search_criteria : List (SearchKey T)) (uid : Bool)
      (c : TokioClient E)
      → X Named.sort ⊎ (ext_sort_supported c.state ≡ true)
      → closed.Q c (Commands._sort E sort_criteria search_criteria uid c)
  unfolding Commands._sort all_tasks
  _sort-at sort_criteria search_criteria uid c needs =
      default-at closed sort_criteria _ _ c (λ sort.
        default-at closed search_criteria SearchKey.all _ c
          (λ search. run-at closed c TaskType.sort _ needs))

  pub _thread-Holds :
      X Named.thread
      → (algorithm : T.ThreadingAlgorithm) (search_criteria : List (SearchKey T)) (uid : Bool)
      → Holds closed (Commands._thread E algorithm search_criteria uid)
  unfolding Commands._thread all_tasks
  _thread-Holds x algorithm search_criteria uid =
      default-Holds closed search_criteria SearchKey.all _
        (λ search. runs TaskType.thread _ (λ c. x))

  pub _copy-Holds :
      (set : T.SequenceSet) (mailbox : TryInto E T.Mailbox) (uid : Bool)
      → Holds closed (Messages._copy E set mailbox uid)
  unfolding Messages._copy all_tasks
  _copy-Holds set mailbox uid = with-Holds closed mailbox _ (λ mbox. runs TaskType.copy _ (λ c. tt))

  pub _move-at :
      (set : T.SequenceSet) (mailbox : TryInto E T.Mailbox) (uid : Bool) (c : TokioClient E)
      → X Named.move ⊎ (ext_move_supported c.state ≡ true)
      → closed.Q c (Messages._move E set mailbox uid c)
  unfolding Messages._move all_tasks
  _move-at set mailbox uid c needs =
      with-at closed mailbox _ c (λ mbox _. run-at closed c TaskType.move _ needs)

  pub _silent_store-Holds :
      (set : T.SequenceSet) (kind : StoreType T) (flags : List (Flag T)) (uid : Bool)
      → Holds closed (Messages._silent_store E set kind flags uid)
  unfolding Messages._silent_store all_tasks
  _silent_store-Holds set kind flags uid = runs TaskType.silent_store _ (λ c. tt)

  pub expunge-Holds : Holds closed (Commands.expunge E)
  unfolding Commands.expunge all_tasks
  expunge-Holds = runs TaskType.expunge _ (λ c. tt)

  pub _move_or_fallback-Holds :
      (set : T.SequenceSet) (mailbox : TryInto E T.Mailbox) (uid : Bool)
      → Holds closed (Fallback._move_or_fallback E set mailbox uid)
  unfolding Fallback._move_or_fallback
  _move_or_fallback-Holds set mailbox uid c =
      if-at closed (ext_move_supported c.state) _ _ c (λ e. _move-at set mailbox uid c (inr e))
        (λ _.
          bind-Holds closed _ _ (_copy-Holds set mailbox uid)
            (λ _.
              bind-Holds closed _ _ (_silent_store-Holds set StoreType.add _ uid)
                (λ _. bind-Holds closed _ _ expunge-Holds (λ _. (λ c. closed.same c _))))
            c)

  pub refresh-Holds : S → Holds closed (Login.refresh_capabilities E)
  unfolding Login.refresh_capabilities all_tasks
  refresh-Holds s =
      bind-Holds closed _ _ (runs TaskType.capability _ (λ c. tt))
        (λ capabilities c'. closed.saves s c' capabilities)

  pub save-Holds :
      S → (output : Option (Vec1 (Capability T))) → Holds closed (Login.save_or_refresh E output)
  save-Holds s (some capabilities) c = closed.saves s c capabilities
  save-Holds s none c = refresh-Holds s c

  pub authenticate-at :
      S
      → (task : (library_task E.I T TaskType.authenticate).Self) (c : TokioClient E)
      → TaskNeeds E X c.state TaskType.authenticate task
      → closed.Q c (Login.authenticate E task c)
  unfolding Login.authenticate
  authenticate-at s task c needs =
      closed.later c (Login.save_or_refresh E) (run {E = E} TaskType.authenticate task c)
        (run-at closed c TaskType.authenticate task needs) (save-Holds s)

  pub _fetch-Holds :
      (set : T.SequenceSet) (items : MacroOrMessageDataItemNames T) (uid : Bool)
      (modifiers : Option (List (FetchModifier T)))
      → Holds closed (Fetch._fetch E set items uid modifiers)
  unfolding Fetch._fetch all_tasks
  _fetch-Holds set items uid modifiers =
      bind-Holds closed _ _ (runs TaskType.fetch _ (λ c. tt))
        (λ seq_map. if-Holds closed uid (λ c. closed.same c _) (λ c. closed.same c _))

  fetch_chunks-Holds :
      (ids : List (List ℕ)) (items : List (MessageDataItemName T)) (uid : Bool) (fetches : Items E)
      → Holds closed (SortFallback.fetch_chunks E K ids items uid fetches)
  unfolding SortFallback.fetch_chunks
  fetch_chunks-Holds [] items uid fetches = λ c. closed.same c _
  fetch_chunks-Holds (x ∷ ids) items uid fetches =
      with-Holds closed (E.sequence_set_try_from x) _ (λ set.
        bind-Holds closed _ _ (_fetch-Holds set (message_data_item_names items) uid none)
          (λ fetched. fetch_chunks-Holds ids items uid (insert_all (E.I.iter _ fetched) fetches)))

  pub _sort_or_fallback-Holds :
      (sort_criteria : List SortCriterion) (search_criteria : List (SearchKey T))
      (fetch_items : MacroOrMessageDataItemNames T) (uid : Bool)
      → Holds closed
          (SortFallback._sort_or_fallback E K sort_criteria search_criteria fetch_items uid)
  unfolding SortFallback._sort_or_fallback SortFallback.sorted_by_server
      SortFallback.sorted_by_client
  _sort_or_fallback-Holds sort_criteria search_criteria fetch_items uid c =
      if-at closed (ext_sort_supported c.state) _ _ c
        (λ e. closed.later c _ _ (_sort-at sort_criteria search_criteria uid c (inr e)) (λ ids.
          bind-Holds closed _ _ (fetch_chunks-Holds _ _ uid [])
            (λ fetches. (λ c. closed.same c _))))
        (λ _.
          bind-Holds closed _ _ (_search-Holds search_criteria uid)
            (λ ids.
              bind-Holds closed _ _ (fetch_chunks-Holds _ _ uid [])
                (λ fetches. (λ c. closed.same c _)))
            c)

  pub append-Holds :
      (mailbox : TryInto E T.Mailbox) (flags : List (Flag T)) (message : List ℕ)
      → Holds closed (Login.append E mailbox flags message)
  unfolding Login.append all_tasks Append.new Append.with_flags
  append-Holds mailbox flags message = with-Holds closed mailbox _ (λ mbox c.
      with-at closed (Login.to_static_literal E message (ext_binary_supported c.state)) _ c
        (λ msg e. run-at closed c TaskType.append _ (static-Needs E c.state message msg e)))

  pub appenduid-Holds :
      (mailbox : TryInto E T.Mailbox) (flags : List (Flag T)) (message : List ℕ)
      → Holds closed (Login.appenduid E mailbox flags message)
  unfolding Login.appenduid all_tasks AppendUid.new AppendUid.with_flags
  appenduid-Holds mailbox flags message = with-Holds closed mailbox _ (λ mbox c.
      with-at closed (Login.to_static_literal E message (ext_binary_supported c.state)) _ c
        (λ msg e. run-at closed c TaskType.append_uid _ (static-Needs E c.state message msg e)))

  pub select-Holds : (mailbox : TryInto E T.Mailbox) → Holds closed (Commands.select E mailbox)
  unfolding Commands.select all_tasks Select.new Select.with_condstore
  select-Holds mailbox =
      with-Holds closed mailbox _ (λ mbox c. run-at closed c TaskType.select _ refl)

  pub check-Holds : Holds closed (Messages.post_append_check E)
  unfolding Messages.post_append_check all_tasks
  check-Holds = runs TaskType.post_append_check _ (λ c. tt)

  pub noop-Holds : Holds closed (Messages.post_append_noop E)
  unfolding Messages.post_append_noop all_tasks
  noop-Holds = runs TaskType.post_append_no_op _ (λ c. tt)

  found-Holds : (seq : Option ℕ) → Holds closed (Fallback.found E seq)
  found-Holds none c = closed.same c _
  found-Holds (some n) c = closed.same c _

  seq_or_check-Holds : (seq : Option ℕ) → Holds closed (Fallback.seq_or_check E seq)
  seq_or_check-Holds none c = bind-Holds closed _ _ check-Holds found-Holds c
  seq_or_check-Holds (some n) c = closed.same c _

  seq_or_noop-Holds : (seq : Option ℕ) → Holds closed (Fallback.seq_or_noop E seq)
  seq_or_noop-Holds none c = bind-Holds closed _ _ noop-Holds seq_or_check-Holds c
  seq_or_noop-Holds (some n) c = closed.same c _

  uid_of_seq-Holds : P → (seq : ℕ) → Holds closed (Fallback.uid_of_seq E seq)
  unfolding Commands.search
  uid_of_seq-Holds p seq c = elim (Result-cases (E.sequence_set_try_from_one seq)) [
    | inl (set, e) ↦
        rw (Fallback.uid_of_seq, e) (_search-Holds (SearchKey.sequence_set set ∷ []) false c)
    | inr (x, e) ↦ rw (Fallback.uid_of_seq, e) (closed.panics p c seq x e)
  ]

  pub appenduid_or_fallback-Holds :
      P
      → (mailbox : TryInto E T.Mailbox) (flags : List (Flag T)) (message : List ℕ)
      → Holds closed (Fallback.appenduid_or_fallback E mailbox flags message)
  unfolding Fallback.appenduid_or_fallback
  appenduid_or_fallback-Holds p mailbox flags message c =
      if-Holds closed (ext_uidplus_supported c.state)
        (bind-Holds closed _ _ (appenduid-Holds mailbox flags message) (λ _ c'. closed.same c' _))
        (bind-Holds closed _ _ (select-Holds mailbox) (λ _.
          bind-Holds closed _ _ (append-Holds mailbox flags message) (λ seq.
            bind-Holds closed _ _ (seq_or_noop-Holds seq) (λ seq.
              bind-Holds closed _ _ (uid_of_seq-Holds p seq) (λ uids c'. closed.same c' _)))))
        c
