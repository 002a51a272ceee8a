-- ===== src/Examples/Deliveries.antt =====
-- A search over a socket, from its command to its output.
use imap_client.Prelude.{ℕ, true, false, none, some, List, [], ◌∷◌, ◌≡◌, refl, ok, err, arith}
use imap_client.Imap.{CommandBody, Data, Event, Status, io, output, need_more_input, SearchKey}
use imap_client.Client.{with_resolver}
use imap_client.Resolver.Session.{idle}
use imap_client.Resolver.Session.Conversation.{Conversation}
use imap_client.Resolver.Session.Talk.{Talk}
use imap_client.Scheduler.State.{Scheduler}
use imap_client.Tasks.Library.{all_tasks, TaskType, library, library_task}
use imap_client.Tasks.Search
use imap_client.Tokio.Answers.{search-Answers}
use imap_client.Tokio.Api.{TokioClient, resolve}
use imap_client.Tokio.Commands
use imap_client.Tokio.Connection.{on_connection}
use imap_client.Tokio.Delivery.{resolve-Talk}
use imap_client.Examples.{T₀, in_order, Script, plays, scripted, done}
use imap_client.Examples.Connections.{answering}
use imap_client.Examples.Streams.{queues, queues-Works}

abbrev at_rest : Script → Scheduler (library in_order T₀) scripted
at_rest script = record {
  client_next = script;
  waiting_tasks = [];
  active_tasks = [];
  tag_generator = 0;
}

-- The command is written, then it is sent, the numbers come, and after more input the status.
abbrev searching : Script
searching = plays (
    err (io (output (9 ∷ [])))
    ∷ ok (Event.command_sent 0)
    ∷ ok (Event.data_received (Data.search (1 ∷ 2 ∷ []) none))
    ∷ err (io need_more_input)
    ∷ ok (Event.status_received (Status.tagged (record { tag = 0; body = done })))
    ∷ [])

abbrev pub online : TokioClient (on_connection answering scripted queues 5 5 3)
online = record {
  host = "mail";
  state = with_resolver (record { scheduler = at_rest searching });
  stream = ((7 ∷ []) ∷ (8 ∷ []) ∷ [], []);
}

search_all : (library_task in_order T₀ TaskType.search).Self
unfolding all_tasks
search_all = Search.new (SearchKey.all ∷ [])

talk :
    Talk {R = library in_order T₀} scripted TaskType.search
      (record { handle = 0 })
      0
      false
      4
      (record searching { next_handle = 1 })
      search_all
      ((9 ∷ []) ∷ [])
      ((7 ∷ []) ∷ (8 ∷ []) ∷ [])
      (ok (1 ∷ 2 ∷ []))
      (record { next_handle = 1; script = [] })
unfolding all_tasks search_all Search.new
talk =
    Talk.writes refl (Talk.sent refl (Talk.receives refl (Talk.waits refl (Talk.completes refl))))

resolve-Talk_example :
    (stream' : List (List ℕ) × List (List ℕ)) × (resolve
        {E = on_connection answering scripted queues 5 5 3} TaskType.search search_all online
      ≡ some (
        ok (ok (1 ∷ 2 ∷ [])),
        record online {
          state = record online.state {
            resolver = record {
              scheduler =
                  idle TaskType.search
                    (record { handle = 0 })
                    0
                    []
                    1
                    (record { next_handle = 1; script = [] });
            };
          };
          stream = stream';
        },
      ))
    × (stream'.0 ≡ [])
    × (stream'.1 ≡ (9 ∷ []) ∷ [])
unfolding all_tasks search_all Search.new
resolve-Talk_example =
    resolve-Talk answering scripted queues queues-Works 5 4 3 4 TaskType.search search_all online
      (CommandBody.search none (SearchKey.all ∷ []) true) refl refl refl talk refl (omega arith)
      (omega arith) (omega arith)

conversation :
    Conversation scripted 0 0 false 4
      (record searching { next_handle = 1 })
      (Data.search (1 ∷ 2 ∷ []) none ∷ [])
      done
      ((9 ∷ []) ∷ [])
      ((7 ∷ []) ∷ (8 ∷ []) ∷ [])
      (record { next_handle = 1; script = [] })
conversation = Conversation.writes refl (
    Conversation.sent refl
      (Conversation.receives refl (Conversation.waits refl (Conversation.completes refl))))

search-Answers_example :
    (stream' : List (List ℕ) × List (List ℕ)) × (Commands._search
        (on_connection answering scripted queues 5 5 3)
        []
        true
        online
      ≡ some (
        ok (1 ∷ 2 ∷ []),
        record online {
          state = with_resolver (record {
            scheduler = record {
              client_next = record { next_handle = 1; script = [] };
              waiting_tasks = [];
              active_tasks = [];
              tag_generator = 1;
            };
          });
          stream = stream';
        },
      ))
    × (stream'.0 ≡ [])
    × (stream'.1 ≡ (9 ∷ []) ∷ [])
search-Answers_example =
    search-Answers answering scripted queues queues-Works 5 4 3 online
      (CommandBody.search none (SearchKey.all ∷ []) true) 4 _ done _ _ [] _ refl refl conversation
      refl (omega arith) (omega arith) (omega arith) [] true refl
