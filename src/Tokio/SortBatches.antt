-- ===== src/Tokio/SortBatches.antt =====
-- How many messages the FETCH commands of `_sort_or_fallback` of src/client/tokio.rs name.
use imap_client.Prelude.{
  ℕ, Bool, true, false, if◌then◌else◌, Option, none, some, List, [], ◌∷◌, ◌++◌, append-nil,
  append_assoc, ◌≡◌, refl, sym, ap, ◌∙◌, subst, Result, ok, err, All, map, arith, Bool-cases,
  Result-cases, inl, inr,
}
use imap_client.Prelude.Slices.{sort_by}
use imap_client.Prelude.Slices.Laws.{Sized, chunks-Sized}
use imap_client.Imap.{
  MacroOrMessageDataItemNames, message_data_item_names, MessageDataItem, MessageDataItemName,
  SearchKey, SortCriterion, Vec1,
}
use imap_client.Client.{ext_sort_supported}
use imap_client.Client.FetchOrder.{Keys, sort_cmp}
use imap_client.Tasks.{TaskError}
use imap_client.Tasks.Library.{TaskType, library_task, output_type, Payload, all_tasks}
use imap_client.Tasks.Fetch
use imap_client.Tokio.Api.{
  Environment, Method, TokioClient, ClientError, after, answered, resolve, run, checked, pure,
  ◌>>=◌,
}
use imap_client.Tokio.Commands.{_search, _sort}
use imap_client.Tokio.Fetch.{_fetch}
use imap_client.Tokio.Messages.{Items}
use imap_client.Tokio.MovePlan.{Step}
use imap_client.Tokio.Sending.{Log}
use imap_client.Tokio.SortFallback.{
  batches, fetch_chunks, _sort_or_fallback, sorted_by_server, sorted_by_client, take_all,
}

module _ (E : Environment) where
  open E use {I, T}

  -- A FETCH is of the set of at least one and at most 255 numbers.
  unfoldable pub IsSmall : Step E → Type 0
  unfolding all_tasks
  IsSmall (TaskType.fetch, task) =
      (numbers : List ℕ) × Sized 255 numbers
      × (E.sequence_set_try_from numbers ≡ ok task.sequence_set)
  IsSmall _ = Unit

module _ {E : Environment} (log : Log E) (P : Step E → Type 0) where
  open E use {I, T}

  -- A method that ends like this has sent tasks that satisfy the predicate.
  abbrev Sends :
      {A : Type 0} → TokioClient E → Option (Result A (ClientError E) × TokioClient E) → Type 0
  Sends c none = Unit
  Sends c (some (r, c')) =
      (steps : List (Step E)) × (log.sent c'.stream ≡ log.sent c.stream ++ steps) × All P steps

  All-append : (xs ys : List (Step E)) → All P xs → All P ys → All P (xs ++ ys)
  All-append [] ys h k = k
  All-append (x ∷ xs) ys (h, hs) k = (h, All-append xs ys hs k)

  Sends-nothing :
      {A : Type 0} (c : TokioClient E) (r : Result A (ClientError E)) → Sends c (some (r, c))
  Sends-nothing c r = ([], sym (append-nil (log.sent c.stream)), tt)

  later-Sends :
      {A : Type 0} (c c₁ : TokioClient E) (steps : List (Step E))
      (o : Option (Result A (ClientError E) × TokioClient E))
      → log.sent c₁.stream ≡ log.sent c.stream ++ steps
      → All P steps
      → Sends c₁ o
      → Sends c o
  later-Sends c c₁ steps none e h k = tt
  later-Sends c c₁ steps (some (r, c')) e h (more, e', h') = (
    steps ++ more,
    e' ∙ ap (λ xs. xs ++ more) e ∙ append_assoc (log.sent c.stream) steps more,
    All-append steps more h h',
  )

  after-Sends :
      {A B : Type 0} (c : TokioClient E) (f : A → Method E B)
      (o : Option (Result A (ClientError E) × TokioClient E))
      → Sends c o
      → ((a : A) (c' : TokioClient E) → Sends c' (f a c'))
      → Sends c (after f o)
  after-Sends c f none h k = tt
  after-Sends c f (some (ok a, c')) (steps, e, h) k = later-Sends c c' steps (f a c') e h (k a c')
  after-Sends c f (some (err x, c')) h k = h

  checked-Sends :
      {A : Type 0} (r : Result A (TaskError T)) (c : TokioClient E) → Sends c (checked {E = E} r c)
  checked-Sends (ok a) c = Sends-nothing c (ok a)
  checked-Sends {A} (err e) c = Sends-nothing {A = A} c (err (ClientError.resolve_task e))

  resolve-Sends :
      (c : TokioClient E) (t : TaskType) (task : (library_task I T t).Self)
      → P (t, task)
      → Sends c (resolve {E = E} t task c)
  unfolding resolve
  resolve-Sends c t task p = go (E.resolve_task t task c.state.resolver c.stream) refl
    where
      go :
          (o : Option (
            Result (Result (Payload T (output_type t)) (TaskError T)) E.StreamError
            × (E.Resolver × E.Stream)))
          → E.resolve_task t task c.state.resolver c.stream ≡ o
          → Sends c (answered c o)
      go none e = tt
      go (some (ok a, (r, s))) e = ((t, task) ∷ [], log.logs t task _ r _ s (ok a) e, (p, tt))
      go (some (err x, (r, s))) e = ((t, task) ∷ [], log.logs t task _ r _ s (err x) e, (p, tt))

  run-Sends :
      (c : TokioClient E) (t : TaskType) (task : (library_task I T t).Self)
      → P (t, task)
      → Sends c (run {E = E} t task c)
  unfolding run
  run-Sends c t task p =
      after-Sends c checked (resolve {E = E} t task c) (resolve-Sends c t task p) checked-Sends

module _ {E : Environment} (log : Log E) (K : Keys E.T) where
  open E use {I, T}

  pick :
      (b : Bool) (x y : Items E) (c : TokioClient E)
      → Sends log (IsSmall E) c ((if b then pure {E = E} x else pure {E = E} y) c)
  pick true x y c = Sends-nothing log (IsSmall E) c (ok x)
  pick false x y c = Sends-nothing log (IsSmall E) c (ok y)

  _fetch-Small :
      (set : T.SequenceSet) (numbers : List ℕ) (items : MacroOrMessageDataItemNames T) (uid : Bool)
      (c : TokioClient E)
      → Sized 255 numbers
      → E.sequence_set_try_from numbers ≡ ok set
      → Sends log (IsSmall E) c (_fetch E set items uid none c)
  unfolding _fetch IsSmall all_tasks Fetch.new Fetch.with_uid
  _fetch-Small set numbers items uid c h e =
      after-Sends log (IsSmall E) c _ (run {E = E} TaskType.fetch _ c)
        (run-Sends log (IsSmall E) c TaskType.fetch _ (numbers, h, e))
        (λ seq_map c'. pick uid _ _ c')

  chunks-Small :
      (chunks : List (List ℕ)) (items : List (MessageDataItemName T)) (uid : Bool)
      (fetches : Items E) (c : TokioClient E)
      → All (Sized 255) chunks
      → Sends log (IsSmall E) c (fetch_chunks E K chunks items uid fetches c)
  unfolding fetch_chunks
  chunks-Small [] items uid fetches c h = Sends-nothing log (IsSmall E) c (ok fetches)
  chunks-Small (ids ∷ chunks) items uid fetches c (h, hs) =
      elim (Result-cases (E.sequence_set_try_from ids)) [
        | inl (set, e) ↦ rw e (
            after-Sends log (IsSmall E) c _
              (_fetch E set (message_data_item_names items) uid none c)
              (_fetch-Small set ids (message_data_item_names items) uid c h e)
              (λ fetched c'. chunks-Small chunks items uid _ c' hs))
        | inr (x, e) ↦
            rw e (Sends-nothing log (IsSmall E) {A = Items E} c (err (ClientError.validation x)))
      ]

  -- What is made of the messages sends nothing.
  batches-Small :
      (f : Items E → List (Vec1 (MessageDataItem T))) (ids : List ℕ)
      (items : List (MessageDataItemName T)) (uid : Bool) (c : TokioClient E)
      → Sends log
          (IsSmall E)
          c
          ((fetch_chunks E K (batches ids) items uid [] >>= λ fetches. pure (f fetches)) c)
  unfolding batches
  batches-Small f ids items uid c =
      after-Sends log (IsSmall E) c _ (fetch_chunks E K (batches ids) items uid [] c)
        (chunks-Small _ items uid [] c (chunks-Sized 255 ids (omega arith)))
        (λ fetches c'. Sends-nothing log (IsSmall E) c' (ok (f fetches)))

  search-Small :
      (search_criteria : List (SearchKey T)) (uid : Bool) (c : TokioClient E)
      → Sends log (IsSmall E) c (_search E search_criteria uid c)
  unfolding _search IsSmall all_tasks
  search-Small [] uid c = run-Sends log (IsSmall E) c TaskType.search _ tt
  search-Small (x ∷ xs) uid c = run-Sends log (IsSmall E) c TaskType.search _ tt

  sort-Small :
      (sort_criteria : List SortCriterion) (search_criteria : List (SearchKey T)) (uid : Bool)
      (c : TokioClient E)
      → Sends log (IsSmall E) c (_sort E sort_criteria search_criteria uid c)
  unfolding _sort IsSmall all_tasks
  sort-Small [] [] uid c = run-Sends log (IsSmall E) c TaskType.sort _ tt
  sort-Small [] (x ∷ xs) uid c = run-Sends log (IsSmall E) c TaskType.sort _ tt
  sort-Small (y ∷ ys) [] uid c = run-Sends log (IsSmall E) c TaskType.sort _ tt
  sort-Small (y ∷ ys) (x ∷ xs) uid c = run-Sends log (IsSmall E) c TaskType.sort _ tt

  both-Small :
      (sort_criteria : List SortCriterion) (search_criteria : List (SearchKey T))
      (fetch_items : MacroOrMessageDataItemNames T) (uid : Bool) (c : TokioClient E)
      → Sends log
          (IsSmall E)
          c
          (_sort_or_fallback E K sort_criteria search_criteria fetch_items uid c)
  unfolding _sort_or_fallback sorted_by_server sorted_by_client
  both-Small sort_criteria search_criteria fetch_items uid c =
      elim (Bool-cases (ext_sort_supported c.state)) [
        | inl e ↦ rw e (
            after-Sends log (IsSmall E) c _ (_sort E sort_criteria search_criteria uid c)
              (sort-Small sort_criteria search_criteria uid c)
              (λ ids c'. batches-Small (take_all E K ids) ids _ uid c'))
        | inr e ↦ rw e (
            after-Sends log (IsSmall E) c _ (_search E search_criteria uid c)
              (search-Small search_criteria uid c)
              (λ ids c'.
                batches-Small
                  (λ fetches.
                    sort_by (sort_cmp K sort_criteria) (map (λ e. e.1) (I.iter _ fetches)))
                  ids _ uid c'))
      ]

  -- Whether the server sorts or not, each FETCH command that a call of `_sort_or_fallback` has sent
  -- when it returns is for the sequence set of a list of at least one and at most 255 numbers.
  pub sort_or_fallback-Small :
      (sort_criteria : List SortCriterion) (search_criteria : List (SearchKey T))
      (fetch_items : MacroOrMessageDataItemNames T) (uid : Bool) (c c' : TokioClient E)
      (r : Result (List (Vec1 (MessageDataItem T))) (ClientError E))
      → _sort_or_fallback E K sort_criteria search_criteria fetch_items uid c ≡ some (r, c')
      → (steps : List (Step E)) × (log.sent c'.stream ≡ log.sent c.stream ++ steps)
        × All (IsSmall E) steps
  sort_or_fallback-Small sort_criteria search_criteria fetch_items uid c c' r h =
      subst (Sends log (IsSmall E) c) h (both-Small sort_criteria search_criteria fetch_items uid c)
