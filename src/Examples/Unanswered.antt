-- ===== src/Examples/Unanswered.antt =====
-- Connections that answer the first tasks and then none, or all of them.
use imap_client.Prelude.{suc, ℕ, false, true, none, some, ◌≡◌, refl, ok, ltb, if◌then◌else◌}
use imap_client.Client.{with_resolver, ext_move_supported}
use imap_client.Tasks.Library.{all_tasks}
use imap_client.Tokio.Api.{Environment, TokioClient, run, resolve}
use imap_client.Tokio.Calls.{Call, invoke}
use imap_client.Tokio.Commands.{expunge}
use imap_client.Tokio.Fallback.{move_or_fallback, _move_or_fallback}
use imap_client.Tokio.Messages.{_copy, _silent_store}
use imap_client.Tokio.Returns.{Ending, invoke-Ending}
use imap_client.Examples.{T₀, in_order}
use imap_client.Examples.Clients.{keys}
use imap_client.Examples.Connections.{answering, answer}

-- It answers the first two tasks.
abbrev dying : Environment
dying = record {
  I = in_order;
  T = T₀;
  Resolver = Unit;
  Stream = ℕ;
  StreamError = ℕ;
  ValidationError = ℕ;
  IoError = ℕ;
  TlsError = ℕ;
  PemError = ℕ;
  PathBuf = ℕ;
  resolve_task =
      λ t task resolver n. if ltb n 2 then some (ok (ok (answer t)), (resolver, suc n)) else none;
  next_event = answering.next_event;
  literal_validate = answering.literal_validate;
  literal_unvalidated = answering.literal_unvalidated;
  expand = answering.expand;
  sequence_set_try_from = answering.sequence_set_try_from;
  sequence_set_try_from_one = answering.sequence_set_try_from_one;
}

abbrev start : TokioClient dying
start = record { host = "mail"; state = with_resolver tt; stream = 0 }

-- COPY and STORE are answered, and EXPUNGE is not.
moves_until_expunge : invoke dying keys (Call.move_or_fallback 5 (ok 2)) start ≡ none
unfolding invoke move_or_fallback _move_or_fallback _copy _silent_store expunge run resolve
    all_tasks ext_move_supported
moves_until_expunge = refl

invoke-Ending_example :
    Ending dying (false ≡ true) start (invoke dying keys (Call.move_or_fallback 5 (ok 2)) start)
invoke-Ending_example = invoke-Ending dying keys (Call.move_or_fallback 5 (ok 2)) start
