-- ===== src/Tokio/SortOrder.antt =====
-- The order of the messages that `_sort_or_fallback` of src/client/tokio.rs returns.
use mathlib.Core.List.{Perm}
use mathlib.Core.List.Perm
use imap_client.Prelude.{
  ℕ, Bool, false, none, some, List, [], ◌∷◌, ◌≡◌, refl, map, filter_map, ok, All,
}
use imap_client.Prelude.Slices.{sort_by}
use imap_client.Prelude.HashMap.{insert_all}
use imap_client.Prelude.Slices.Laws.{flatten, chunks-flatten, sort_by-perm, sort_by-Sorted}
use imap_client.Imap.{
  MacroOrMessageDataItemNames, message_data_item_names, MessageDataItem, MessageDataItemName,
  SearchKey, SortCriterion, Vec1,
}
use imap_client.Client.{ext_sort_supported}
use imap_client.Client.FetchOrder.{Keys, sort_cmp, sort_cmp-IsTotal}
use imap_client.Client.FetchOrder.Before.{InOrder, Sorted-InOrder}
use imap_client.Tokio.SortItems.{Covers, push_all-Covers}
use imap_client.Tokio.Api.{Environment, TokioClient}
use imap_client.Tokio.Commands.{_search}
use imap_client.Tokio.Fetch.{_fetch}
use imap_client.Tokio.Messages.{Items}
use imap_client.Tokio.SortFallback.{
  batches, fetch_chunks, push_all, item_of, first_items, sorted_by_client, _sort_or_fallback,
}

module _ (E : Environment) (K : Keys E.T) where
  open E use {I, T}

  -- The batches are fetched in turn, and what each has is put into the fetches.
  pub data Fetching (items : List (MessageDataItemName T)) (uid : Bool)
      : List (List ℕ) → Items E → TokioClient E → Items E → TokioClient E → Type 0 where
    done : {fetches : Items E} {c : TokioClient E} → Fetching items uid [] fetches c fetches c
    batch :
        {ids : List ℕ} {chunks : List (List ℕ)} {set : T.SequenceSet}
        {fetches fetched result : Items E} {c c₁ c₂ : TokioClient E}
        → E.sequence_set_try_from ids ≡ ok set
        → _fetch E set (message_data_item_names items) uid none c ≡ some (ok fetched, c₁)
        → Fetching items uid chunks (insert_all (I.iter _ fetched) fetches) c₁ result c₂
        → Fetching items uid (ids ∷ chunks) fetches c result c₂

  Fetching-fetch_chunks :
      {items : List (MessageDataItemName T)} {uid : Bool} {chunks : List (List ℕ)}
      {fetches result : Items E} {c c' : TokioClient E}
      → Fetching items uid chunks fetches c result c'
      → fetch_chunks E K chunks items uid fetches c ≡ some (ok result, c')
  unfolding fetch_chunks
  Fetching-fetch_chunks Fetching.done = refl
  Fetching-fetch_chunks (Fetching.batch e f rest) = rw (e, f) (Fetching-fetch_chunks rest)

  -- Where the server cannot sort, and the search and the fetches of the batches succeed in turn, the
  -- batches have the numbers of the search, all and in order, and `_sort_or_fallback` returns,
  -- without more tasks, the messages that were fetched, each once, in an order in which none comes
  -- before one in front of it: by the first criterion that does not tie them, reversed or not, a
  -- missing value being the lowest, and by the date where all criteria tie them. For each criterion
  -- by arrival, date, size or subject the items that were fetched have the one with its value.
  pub sort_or_fallback-Sorted :
      (sort_criteria : List SortCriterion) (search_criteria : List (SearchKey T))
      (fetch_items : MacroOrMessageDataItemNames T) (uid : Bool) (c c₁ c₂ : TokioClient E)
      (ids : List ℕ) (fetches : Items E)
      → ext_sort_supported c.state ≡ false
      → _search E search_criteria uid c ≡ some (ok ids, c₁)
      → Fetching
          (push_all (filter_map item_of sort_criteria) (first_items E K fetch_items uid))
          uid
          (batches ids)
          []
          c₁
          fetches
          c₂
      → (flatten (batches ids) ≡ ids)
        × (result : List (Vec1 (MessageDataItem T))) × (_sort_or_fallback E K sort_criteria
              search_criteria fetch_items uid c
            ≡ some (ok result, c₂))
        × Perm result (map (λ e. e.1) fetches)
        × InOrder K sort_criteria result
        × All
            (λ criterion.
              Covers
                (push_all (filter_map item_of sort_criteria) (first_items E K fetch_items uid))
                criterion.key)
            sort_criteria
  unfolding _sort_or_fallback sorted_by_client batches
  sort_or_fallback-Sorted sort_criteria search_criteria fetch_items uid c c₁ c₂ ids fetches n s f =
      let order = E.I.iter (ℕ × Vec1 (MessageDataItem T)) fetches in
      (
        chunks-flatten _ ids,
        sort_by (sort_cmp K sort_criteria) (map (λ e. e.1) order),
        rw n (rw s (rw (Fetching-fetch_chunks f) refl)),
        Perm.trans (sort_by-perm _ _) (Perm.map (λ e. e.1) (E.I.iter-perm _ fetches)),
        Sorted-InOrder K sort_criteria _ (sort_by-Sorted (sort_cmp-IsTotal K sort_criteria) _),
        push_all-Covers sort_criteria (first_items E K fetch_items uid),
      )
