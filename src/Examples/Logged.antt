-- ===== src/Examples/Logged.antt =====
-- The theorem on what the client of src/client/tokio.rs sends, over a stream that is its own log.
use imap_client.Prelude.{◌≡◌, refl, sym, ap, List, [], ◌++◌, ◌∷◌, some, none, ok, false}
use imap_client.Prelude.{All, map, filter_map}
use imap_client.Prelude.HashMap.{insert, insert_all}
use imap_client.Prelude.Slices.{chunks, sort_by}
use imap_client.Imap.{MessageDataItemName, message_data_item_names, SearchKey}
use imap_client.Client.FetchOrder.{sort_cmp}
use imap_client.Client.{with_resolver, ext_sort_supported}
use imap_client.Tasks.Search
use imap_client.Tokio.Commands.{_search}
use imap_client.Tokio.Fetch.{_fetch, fetch_task}
use imap_client.Tokio.SortBatches.{IsSmall, sort_or_fallback-Small}
use imap_client.Tokio.SortFallback.{batches, fetch_chunks, _sort_or_fallback, sorted_by_client}
use imap_client.Scheduler.State.{SchedulerEvent}
use imap_client.Tasks.Library.{all_tasks, TaskType, library_task}
use imap_client.Tokio.Api.{Environment, TokioClient, run, resolve}
use imap_client.Tokio.Advertised.{invoke-Fit}
use imap_client.Tokio.Calls.{Call, invoke, Asks}
use imap_client.Tokio.Commands.{expunge}
use imap_client.Tokio.Fallback.{move_or_fallback, _move_or_fallback}
use imap_client.Tokio.Messages.{_copy, _silent_store}
use imap_client.Tokio.MovePlan.{Step, move_plan}
use imap_client.Tokio.Sending.{Log, Fit}
use imap_client.Client.{ext_move_supported}
use imap_client.Examples.{T₀, in_order}
use imap_client.Examples.Clients.{keys}
use imap_client.Examples.Connections.{answering, answer, by_size}

-- The stream is the list of the tasks that it was given.
abbrev logging : Environment
logging = record {
  I = in_order;
  T = T₀;
  Resolver = Unit;
  Stream = List ((t : TaskType) × (library_task in_order T₀ t).Self);
  StreamError = answering.StreamError;
  ValidationError = answering.ValidationError;
  IoError = answering.IoError;
  TlsError = answering.TlsError;
  PemError = answering.PemError;
  PathBuf = answering.PathBuf;
  resolve_task =
      λ t task resolver sent. some (ok (ok (answer t)), (resolver, sent ++ (t, task) ∷ []));
  next_event = λ resolver sent. some (
    ok (SchedulerEvent.greeting_received (record { kind = 0; code = none; text = 0 })),
    (resolver, sent),
  );
  literal_validate = answering.literal_validate;
  literal_unvalidated = answering.literal_unvalidated;
  expand = answering.expand;
  sequence_set_try_from = answering.sequence_set_try_from;
  sequence_set_try_from_one = answering.sequence_set_try_from_one;
}

abbrev log : Log logging
log = record {
  sent = λ stream. stream;
  logs = λ t task resolver resolver' stream stream' result e.
      sym (ap (λ o. elim o [ none ↦ [] | some x ↦ x.1.1 ]) e);
}

abbrev start : TokioClient logging
start = record { host = "mail"; state = with_resolver tt; stream = [] }

-- Without MOVE: COPY, STORE and EXPUNGE.
abbrev moved : TokioClient logging
moved = record start { stream = move_plan logging false 5 2 false }

invoke-Fit_example :
    (steps : List (Step logging)) × (moved.stream ≡ start.stream ++ steps)
    × Fit log (Asks {E = logging} (Call.move_or_fallback 5 (ok 2))) start steps
unfolding invoke move_or_fallback _move_or_fallback _copy _silent_store expunge run resolve
    all_tasks ext_move_supported move_plan
invoke-Fit_example = invoke-Fit log keys (Call.move_or_fallback 5 (ok 2)) start moved (ok tt) refl

-- Without SORT: SEARCH, and FETCH of the messages that it found.
abbrev sorted : TokioClient logging
unfolding all_tasks
sorted = record start {
  stream =
      (TaskType.search, Search.with_uid (Search.new (SearchKey.all ∷ [])) false)
      ∷ (TaskType.fetch, fetch_task logging 5 (MessageDataItemName.rfc822_size ∷ []) false none)
      ∷ [];
}

sort_or_fallback-Small_example :
    (steps : List (Step logging)) × (sorted.stream ≡ start.stream ++ steps)
    × All (IsSmall logging) steps
unfolding _sort_or_fallback sorted_by_client _search fetch_chunks _fetch run resolve all_tasks
    ext_sort_supported batches chunks insert_all insert filter_map
sort_or_fallback-Small_example =
    sort_or_fallback-Small log keys (by_size ∷ []) [] (message_data_item_names []) false start
      sorted (ok (sort_by (sort_cmp keys (by_size ∷ [])) (map (λ e. e.1) (answer TaskType.fetch))))
      refl
