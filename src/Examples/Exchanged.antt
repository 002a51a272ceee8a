-- ===== src/Examples/Exchanged.antt =====
-- A move over a socket, whose second task is refused.
use imap_client.Prelude.{false, ℕ, true, some, List, [], ◌∷◌, ◌≡◌, refl, ok, err, arith}
use imap_client.Client.{ext_move_supported}
use imap_client.Imap.{CommandBody, Event, Flag, Status, StoreType, StoreResponse, io, output}
use imap_client.Resolver.Session.Conversation.{Conversation}
use imap_client.Tasks.{unexpected_no_response}
use imap_client.Tasks.Library.{all_tasks}
use imap_client.Tasks.Copy
use imap_client.Tasks.SilentStore
use imap_client.Tasks.Store
use imap_client.Tokio.Api.{ClientError}
use imap_client.Tokio.Exchanges.{Exchanges, resting, move-Exchanges}
use imap_client.Tokio.Fallback.{_move_or_fallback}
use imap_client.Tokio.Connection.{on_connection}
use imap_client.Tokio.MovePlan.{move_plan}
use imap_client.Examples.{Script, plays, scripted, done, refused}
use imap_client.Examples.Connections.{answering}
use imap_client.Examples.Deliveries.{online}
use imap_client.Examples.Streams.{queues, queues-Works}

-- COPY is written and sent and succeeds, and STORE is refused.
abbrev moving : Script
moving = plays (
    err (io (output (9 ∷ [])))
    ∷ ok (Event.command_sent 0)
    ∷ ok (Event.status_received (Status.tagged (record { tag = 0; body = done })))
    ∷ err (io (output (10 ∷ [])))
    ∷ ok (Event.command_sent 1)
    ∷ ok (Event.status_received (Status.tagged (record { tag = 1; body = refused })))
    ∷ [])

exchanges :
    Exchanges answering scripted queues queues-Works 5 4 3
      (move_plan (on_connection answering scripted queues 5 5 3) false 5 2 true)
      moving
      0
      (err (unexpected_no_response refused))
      (record { next_handle = 2; script = [] })
      2
      ((9 ∷ []) ∷ (10 ∷ []) ∷ [])
      ((7 ∷ []) ∷ (8 ∷ []) ∷ [])
unfolding all_tasks move_plan Copy.new Copy.with_uid Store.new Store.with_uid SilentStore.silent
exchanges =
    Exchanges.succeeds
      (record {
        body = CommandBody.copy 5 2 true;
        takes = refl;
        results = 2;
        data_received = [];
        status = done;
        conversation =
            Conversation.writes refl (Conversation.sent refl (Conversation.completes refl));
        makes = refl;
        inner_enough = omega arith;
        outer_enough = omega arith;
        fuel_enough = omega arith;
      })
      (Exchanges.fails (record {
        body = CommandBody.store 5 StoreType.add StoreResponse.silent (Flag.deleted ∷ []) true;
        takes = refl;
        results = 2;
        data_received = [];
        status = refused;
        conversation =
            Conversation.writes refl (Conversation.sent refl (Conversation.completes refl));
        makes = refl;
        inner_enough = omega arith;
        outer_enough = omega arith;
        fuel_enough = omega arith;
      }))

move-Exchanges_example :
    (stream' : List (List ℕ) × List (List ℕ)) × (_move_or_fallback
        (on_connection answering scripted queues 5 5 3)
        5
        (ok 2)
        true
        (resting answering scripted queues queues-Works 5 4 3 online moving 0
          ((7 ∷ []) ∷ (8 ∷ []) ∷ [], []))
      ≡ some (
        err (ClientError.resolve_task (unexpected_no_response refused)),
        resting answering scripted queues queues-Works 5 4 3 online
            (record { next_handle = 2; script = [] })
            2
            stream',
      ))
    × ((stream'.0 ≡ []) × (stream'.1 ≡ (9 ∷ []) ∷ (10 ∷ []) ∷ []))
unfolding ext_move_supported
move-Exchanges_example =
    move-Exchanges answering scripted queues queues-Works 5 4 3 online
      ((7 ∷ []) ∷ (8 ∷ []) ∷ [], []) 5 2 true [] exchanges refl
