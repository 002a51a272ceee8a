-- ===== src/Tokio/ServerOrder.antt =====
-- The order of the messages that `_sort_or_fallback` of src/client/tokio.rs returns where the server
-- sorts.
use mathlib.Core.List.{Mem, Nodup, Nodup-cons, mem-cons_of_mem, mem-cons_self, mem-cast}
use imap_client.Prelude.{
  ℕ, Bool, true, some, List, [], ◌∷◌, ◌≡◌, ◌≢◌, refl, sym, ap, Option-cases, inl, inr, ◌∙◌,
  filter_map, ok, arith,
}
use imap_client.Prelude.HashMap.{HashMap, get, remove}
use imap_client.Imap.{MacroOrMessageDataItemNames, SearchKey, SortCriterion}
use imap_client.Client.{ext_sort_supported}
use imap_client.Client.FetchOrder.{Keys}
use imap_client.Tokio.Api.{Environment, TokioClient}
use imap_client.Tokio.Commands.{_sort}
use imap_client.Tokio.Messages.{Items}
use imap_client.Tokio.SortFallback.{
  batches, fetch_chunks, take_all, first_items, sorted_by_server, _sort_or_fallback,
}

module _ {V : Type 0} where
  get-remove : (k j : ℕ) (m : HashMap V) → k ≢ j → get k (remove j m) ≡ get k m
  unfolding get remove
  get-remove k j [] n = refl
  get-remove k j ((i, v) ∷ m) n = ground (arith, get-remove k j m n)

  filter_map_same :
      (ids : List ℕ) (f g : HashMap V)
      → ((k : ℕ) → Mem k ids → get k f ≡ get k g)
      → filter_map (λ k. get k f) ids ≡ filter_map (λ k. get k g) ids
  unfolding filter_map
  filter_map_same [] f g same = refl
  filter_map_same (id ∷ ids) f g same =
      rw (same id mem-cons_self, filter_map_same ids f g (λ k m. same k (mem-cons_of_mem id m)))
        refl

  filter_map_removed :
      (id : ℕ) (ids : List ℕ) (f : HashMap V)
      → ¬ Mem id ids
      → filter_map (λ k. get k (remove id f)) ids ≡ filter_map (λ k. get k f) ids
  filter_map_removed id ids f fresh =
      filter_map_same ids (remove id f) f
        (λ k m. get-remove k id f (λ e. fresh (mem-cast (sym e) m)))

module _ (E : Environment) (K : Keys E.T) where
  open E use {T}

  take_all_lem :
      (ids : List ℕ) (fetches : Items E)
      → Nodup ids
      → take_all E K ids fetches ≡ filter_map (λ id. get id fetches) ids
  unfolding take_all filter_map
  take_all_lem [] fetches once = refl
  take_all_lem (id ∷ ids) fetches once =
      let (fresh, distinct) = Nodup-cons.0 once in
      let rest =
        take_all_lem ids (remove id fetches) distinct ∙ filter_map_removed id ids fetches fresh in
      elim (Option-cases (get id fetches)) [
        | inl e ↦ rw (e, take_all) rest
        | inr (items, e) ↦ rw (e, take_all) (ap (λ xs. items ∷ xs) rest)
      ]

  -- Where the server sorts, it returned no number twice, and the fetches of its batches succeeded,
  -- `_sort_or_fallback` returns, without more tasks, the items of the messages in the order of the
  -- server; a message that was not fetched is left out.
  pub sort_or_fallback_in_order :
      (sort_criteria : List SortCriterion) (search_criteria : List (SearchKey T))
      (fetch_items : MacroOrMessageDataItemNames T) (uid : Bool) (c c₁ c₂ : TokioClient E)
      (ids : List ℕ) (fetches : Items E)
      → ext_sort_supported c.state ≡ true
      → _sort E sort_criteria search_criteria uid c ≡ some (ok ids, c₁)
      → Nodup ids
      → fetch_chunks E K (batches ids) (first_items E K fetch_items uid) uid [] c₁
        ≡ some (ok fetches, c₂)
      → _sort_or_fallback E K sort_criteria search_criteria fetch_items uid c
        ≡ some (ok (filter_map (λ id. get id fetches) ids), c₂)
  unfolding _sort_or_fallback sorted_by_server
  sort_or_fallback_in_order sort_criteria search_criteria fetch_items uid c c₁ c₂ ids fetches y s
        once f =
      rw y (rw s (rw f (rw (take_all_lem ids fetches once) refl)))
