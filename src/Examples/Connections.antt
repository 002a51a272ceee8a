-- ===== src/Examples/Connections.antt =====
-- The theorems on src/client/tokio.rs over a connection that answers every task at once.
use mathlib.Core.List.{Perm}
use imap_client.Prelude.{
  ℕ, suc, zero, true, false, none, some, List, [], ◌∷◌, ◌≡◌, refl, ◌↔◌, Result, ok, err, All,
  filter_map, map,
}
use imap_client.Prelude.HashMap.{insert, insert_all}
use imap_client.Prelude.HashMap.Distinct.{Distinct}
use imap_client.Imap.{Capability, SortKey, SortCriterion, MessageDataItem, message_data_item_names}
use imap_client.Client.{with_resolver}
use imap_client.Tasks.Library.{all_tasks, TaskType, Payload, output_type, library_task}
use imap_client.Tasks.Select
use imap_client.Scheduler.State.{SchedulerEvent}
use imap_client.Tokio.Api.{Environment, TokioClient, ClientError}
use imap_client.Tokio.Api.{run, resolve}
use imap_client.Tokio.Commands.{_search}
use imap_client.Tokio.Login.{refresh_capabilities, login, authenticate}
use imap_client.Tokio.Fetch.{_fetch}
use imap_client.Tokio.Fallback.{_move_or_fallback}
use imap_client.Tokio.MovePlan.{Follows, move_plan, move-Follows}
use imap_client.Tokio.Saving.{Saves, login_task, login-Saves}
use imap_client.Tokio.SortFallback.{
  batches, fetch_chunks, push_all, item_of, first_items, _sort_or_fallback,
}
use imap_client.Client.FetchOrder.Before.{InOrder}
use imap_client.Tokio.SortItems.{Covers}
use imap_client.Tokio.SortOrder.{Fetching, sort_or_fallback-Sorted}
use imap_client.Prelude.Slices.Laws.{flatten}
use imap_client.Prelude.Slices.{chunks}
use imap_client.Client.{ext_move_supported, ext_sort_supported}
use imap_client.Tokio.Calls.{Call, invoke}
use imap_client.Tokio.Guarantees.{Agree, invoke-Agree}
use imap_client.Examples.{T₀, in_order}
use imap_client.Examples.Clients.{keys}

-- Message 1 has the UID 7 and message 3 the UID 9, and no size.
abbrev pub answer : (t : TaskType) → Payload T₀ (output_type t)
answer TaskType.append = none
answer TaskType.append_uid = some (7, 1)
answer TaskType.authenticate = none
answer TaskType.capability = Capability.imap4_rev1 ∷ Capability.id ∷ []
answer TaskType.check = tt
answer TaskType.copy = tt
answer TaskType.create = tt
answer TaskType.delete = tt
answer TaskType.enable = none
answer TaskType.expunge = 3 ∷ []
answer TaskType.fetch =
    (1, MessageDataItem.uid 7 ∷ [])
    ∷ (3, MessageDataItem.rfc822_size 4 ∷ MessageDataItem.uid 9 ∷ [])
    ∷ []
answer TaskType.fetch_first = MessageDataItem.uid 7 ∷ []
answer TaskType.list = []
answer TaskType.login = none
answer TaskType.logout = tt
answer TaskType.move = tt
answer TaskType.no_op = tt
answer TaskType.post_append_check = some 3
answer TaskType.post_append_no_op = none
answer TaskType.search = 3 ∷ 1 ∷ []
answer TaskType.select = record Select.default { highest_modseq = some 500 }
answer TaskType.id = none
answer TaskType.silent_store = tt
answer TaskType.sort = 3 ∷ 1 ∷ []
answer TaskType.store = []
answer TaskType.thread = []

-- `Stream` counts the commands. A sequence set has no 0.
abbrev set_of : ℕ → Result ℕ ℕ
set_of zero = err 0
set_of (suc n) = ok n

abbrev pub answering : Environment
answering = record {
  I = in_order;
  T = T₀;
  Resolver = Unit;
  Stream = ℕ;
  StreamError = ℕ;
  ValidationError = ℕ;
  IoError = ℕ;
  TlsError = ℕ;
  PemError = ℕ;
  PathBuf = ℕ;
  resolve_task = λ t task resolver n. some (ok (ok (answer t)), (resolver, suc n));
  next_event = λ resolver n. some (
    ok (SchedulerEvent.greeting_received (record { kind = 0; code = none; text = 0 })),
    (resolver, n),
  );
  literal_validate = λ message. none;
  literal_unvalidated = λ message. 0;
  expand = λ m. [];
  sequence_set_try_from = λ ids. ok 5;
  sequence_set_try_from_one = set_of;
}

abbrev pub client : TokioClient answering
client = record { host = "mail"; state = with_resolver tt; stream = 0 }

abbrev pub by_size : SortCriterion
by_size = record { reverse = false; key = SortKey.size }

-- After one command that saved the capabilities.
abbrev refreshed : TokioClient answering
refreshed = record client {
  state = record client.state { capabilities = answer TaskType.capability };
  stream = 1;
}

invoke-Agree_example : Agree (true ≡ true) (false ≡ true) client refreshed
unfolding invoke refresh_capabilities run resolve all_tasks
invoke-Agree_example = invoke-Agree keys Call.refresh_capabilities client refreshed (ok tt) refl

move-Follows_example :
    (_move_or_fallback answering 5 (ok 2) true client ≡ some (ok tt, record client { stream = 3 }))
    ↔ Follows answering
        (move_plan answering (ext_move_supported client.state) 5 2 true)
        client
        (ok tt)
        (record client { stream = 3 })
move-Follows_example = move-Follows answering 5 2 true client (record client { stream = 3 }) (ok tt)

login-Saves_example :
    ((username password : ℕ) (c c' : TokioClient answering)
        (r : Result (Unit {0}) (ClientError answering))
      → (login answering (ok username) (ok password) c ≡ some (r, c'))
        ↔ Saves answering (run TaskType.login (login_task answering username password) c) r c')
    × ((task : (library_task in_order T₀ TaskType.authenticate).Self) (c c' : TokioClient answering)
          (r : Result (Unit {0}) (ClientError answering))
        → (authenticate answering task c ≡ some (r, c'))
          ↔ Saves answering (run TaskType.authenticate task c) r c')
login-Saves_example = login-Saves answering

sort_or_fallback-Sorted_example :
    (flatten (batches (answer TaskType.search)) ≡ answer TaskType.search)
    × (result : List (List (MessageDataItem T₀))) × (_sort_or_fallback answering keys
          (by_size ∷ [])
          []
          (message_data_item_names [])
          false
          client
        ≡ some (ok result, record client { stream = 2 }))
    × Perm result (map (λ e. e.1) (answer TaskType.fetch))
    × InOrder keys (by_size ∷ []) result
    × All
        (λ criterion.
          Covers
            (push_all
              (filter_map item_of (by_size ∷ []))
              (first_items answering keys (message_data_item_names []) false))
            criterion.key)
        (by_size ∷ [])
unfolding ext_sort_supported _search fetch_chunks _fetch run resolve all_tasks batches chunks
    insert_all insert
sort_or_fallback-Sorted_example =
    sort_or_fallback-Sorted answering keys (by_size ∷ []) [] (message_data_item_names []) false
      client (record client { stream = 1 }) (record client { stream = 2 }) (answer TaskType.search)
      (answer TaskType.fetch) refl refl (Fetching.batch refl refl Fetching.done)
