-- ===== src/Examples/Orders.antt =====
-- The order in which a server that sorts has its messages returned, at a concrete server.
use mathlib.Core.List.{Nodup, Nodup-cons, Nodup-nil, not-mem-nil, eq-or-mem_of_mem-cons}
use mathlib.Core.Logic.{∥∥₁_elim}
use imap_client.Prelude.{ℕ, true, false, some, [], ◌∷◌, ◌≡◌, refl, ok, inl, inr, arith, filter_map}
use imap_client.Prelude.HashMap.{get, insert, insert_all}
use imap_client.Prelude.Slices.{chunks}
use imap_client.Imap.{Capability, SortKey, SortCriterion, MessageDataItem, message_data_item_names}
use imap_client.Client.{ext_sort_supported}
use imap_client.Tasks.Library.{all_tasks, TaskType}
use imap_client.Tokio.Api.{TokioClient, run, resolve}
use imap_client.Tokio.Commands.{_sort}
use imap_client.Tokio.Fetch.{_fetch}
use imap_client.Tokio.SortFallback.{batches, fetch_chunks, _sort_or_fallback}
use imap_client.Tokio.ServerOrder.{sort_or_fallback_in_order}
use imap_client.Examples.Clients.{keys}
use imap_client.Examples.Connections.{answering, answer, client}

-- The server sorts, and returns 3 before 1.
abbrev sorting : TokioClient answering
sorting = record client { state = record client.state { capabilities = Capability.sort 0 ∷ [] } }

abbrev by_date : SortCriterion
by_date = record { reverse = true; key = SortKey.date }

three_one : Nodup {A = ℕ} (3 ∷ 1 ∷ [])
three_one = Nodup-cons.1 (
  λ m.
      ∥∥₁_elim (eq-or-mem_of_mem-cons m) (hlevel)
        (elim [ inl e ↦ absurd (omega arith) | inr n ↦ not-mem-nil n ]),
  Nodup-cons.1 (not-mem-nil, Nodup-nil),
)

sort_or_fallback_in_order_example :
    _sort_or_fallback answering keys (by_date ∷ []) [] (message_data_item_names []) false sorting
    ≡ some (
      ok (filter_map (λ id. get id (answer TaskType.fetch)) (3 ∷ 1 ∷ [])),
      record sorting { stream = 2 },
    )
unfolding ext_sort_supported _sort fetch_chunks _fetch run resolve all_tasks batches chunks
    insert_all insert
sort_or_fallback_in_order_example =
    sort_or_fallback_in_order answering keys (by_date ∷ []) [] (message_data_item_names []) false
      sorting (record sorting { stream = 1 }) (record sorting { stream = 2 }) (3 ∷ 1 ∷ [])
      (answer TaskType.fetch) refl refl three_one refl

-- What it returns.
in_order_items :
    filter_map (λ id. get id (answer TaskType.fetch)) (3 ∷ 1 ∷ [])
    ≡ (MessageDataItem.rfc822_size 4 ∷ MessageDataItem.uid 9 ∷ [])
      ∷ (MessageDataItem.uid 7 ∷ [])
      ∷ []
unfolding get filter_map
in_order_items = refl
