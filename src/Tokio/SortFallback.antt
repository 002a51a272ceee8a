-- ===== src/Tokio/SortFallback.antt =====
-- `_sort_or_fallback` of src/client/tokio.rs: the messages of a search in the order of SORT, or in
-- an order that the client makes where the server lacks SORT.
use imap_client.Prelude.{
  ℕ, Bool, true, false, Option, none, some, List, [], ◌∷◌, ◌++◌, map, filter_map, any,
  if◌then◌else◌,
}
use imap_client.Prelude.HashMap.{get, insert_all, remove}
use imap_client.Prelude.Slices.{chunks, sort_by}
use imap_client.Imap.{
  ImapTypes, MacroOrMessageDataItemNames, message_data_item_names, MessageDataItem,
  MessageDataItemName, SearchKey, SortCriterion, SortKey, Vec1,
}
use imap_client.Client.{ext_sort_supported}
use imap_client.Client.FetchOrder.{Keys, sort_cmp}
use imap_client.Tokio.Api.{Environment, Method, pure, ◌>>=◌, gets, converted}
use imap_client.Tokio.Commands.{_search, _sort}
use imap_client.Tokio.Messages.{Items}
use imap_client.Tokio.Fetch.{_fetch, expanded}

abbrev pub max_sequence_size : ℕ
max_sequence_size = 255

-- `ids.chunks(MAX_SEQUENCE_SIZE as usize)`
unfoldable pub batches : List ℕ → List (List ℕ)
batches ids = chunks max_sequence_size ids

module _ {T : ImapTypes} where
  -- `derive(PartialEq, Eq)` of `MessageDataItemName`.
  unfoldable pub name_discrete : Discrete (MessageDataItemName T)
  name_discrete = hlevel (T.other_discrete)

  abbrev pub is_name : MessageDataItemName T → MessageDataItemName T → Bool
  is_name item x = elim (name_discrete x item) [ yes _ ↦ true | no _ ↦ false ]

  -- `if !fetch_items.contains(&item) { fetch_items.push(item) }`
  abbrev pub push_new :
      List (MessageDataItemName T) → MessageDataItemName T → List (MessageDataItemName T)
  push_new fetch_items item =
      if any (is_name item) fetch_items then fetch_items else fetch_items ++ item ∷ []

  -- The item that a criterion needs.
  abbrev pub item_of : SortCriterion → Option (MessageDataItemName T)
  item_of criterion = elim criterion.key [
    | SortKey.arrival ↦ some MessageDataItemName.internal_date
    | SortKey.size ↦ some MessageDataItemName.rfc822_size
    | SortKey.display_from ↦ none
    | SortKey.display_to ↦ none
    | _ ↦ some MessageDataItemName.envelope
  ]

  abbrev pub push_all :
      List (MessageDataItemName T) → List (MessageDataItemName T) → List (MessageDataItemName T)
  push_all [] fetch_items = fetch_items
  push_all (item ∷ items) fetch_items = push_all items (push_new fetch_items item)

module _ (E : Environment) (K : Keys E.T) where
  open E use {I, T}

  -- The items that are fetched whether the server sorts or not.
  abbrev pub first_items : MacroOrMessageDataItemNames T → Bool → List (MessageDataItemName T)
  first_items fetch_items uid =
      let items = expanded E fetch_items in
      if uid then push_new items MessageDataItemName.uid else items

  -- The loop over the chunks.
  unfoldable pub fetch_chunks :
      List (List ℕ) → List (MessageDataItemName T) → Bool → Items E → Method E (Items E)
  fetch_chunks [] items uid fetches = pure fetches
  fetch_chunks (ids ∷ ids_chunks) items uid fetches = do
    set ← converted (E.sequence_set_try_from ids)
    fetched ← _fetch E set (message_data_item_names items) uid none
    fetch_chunks ids_chunks items uid (insert_all (I.iter _ fetched) fetches)

  -- `flat_map(|id| fetches.remove(&id))`
  unfoldable pub take_all : List ℕ → Items E → List (Vec1 (MessageDataItem T))
  take_all [] fetches = []
  take_all (id ∷ ids) fetches =
      let rest = take_all ids (remove id fetches) in
      elim (get id fetches) [ none ↦ rest | some items ↦ items ∷ rest ]

  unfoldable pub sorted_by_server :
      List SortCriterion
      → List (SearchKey T)
      → List (MessageDataItemName T)
      → Bool
      → Method E (List (Vec1 (MessageDataItem T)))
  sorted_by_server sort_criteria search_criteria fetch_items uid = do
    ids ← _sort E sort_criteria search_criteria uid
    fetches ← fetch_chunks (batches ids) fetch_items uid []
    pure (take_all ids fetches)

  unfoldable pub sorted_by_client :
      List SortCriterion
      → List (SearchKey T)
      → List (MessageDataItemName T)
      → Bool
      → Method E (List (Vec1 (MessageDataItem T)))
  sorted_by_client sort_criteria search_criteria fetch_items uid = do
    ids ← _search E search_criteria uid
    let items = push_all (filter_map item_of sort_criteria) fetch_items
    fetches ← fetch_chunks (batches ids) items uid []
    pure (sort_by (sort_cmp K sort_criteria) (map (λ e. e.1) (I.iter _ fetches)))

  unfoldable pub _sort_or_fallback :
      List SortCriterion
      → List (SearchKey T)
      → MacroOrMessageDataItemNames T
      → Bool
      → Method E (List (Vec1 (MessageDataItem T)))
  _sort_or_fallback sort_criteria search_criteria fetch_items uid = do
    let items = first_items fetch_items uid
    supported ← gets ext_sort_supported
    if supported
        then sorted_by_server sort_criteria search_criteria items uid
        else sorted_by_client sort_criteria search_criteria items uid

  unfoldable pub sort_or_fallback :
      List SortCriterion
      → List (SearchKey T)
      → MacroOrMessageDataItemNames T
      → Method E (List (Vec1 (MessageDataItem T)))
  sort_or_fallback sort_criteria search_criteria fetch_items =
      _sort_or_fallback sort_criteria search_criteria fetch_items false

  unfoldable pub uid_sort_or_fallback :
      List SortCriterion
      → List (SearchKey T)
      → MacroOrMessageDataItemNames T
      → Method E (List (Vec1 (MessageDataItem T)))
  uid_sort_or_fallback sort_criteria search_criteria fetch_items =
      _sort_or_fallback sort_criteria search_criteria fetch_items true
