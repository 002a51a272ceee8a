-- ===== src/Tokio/Delivery.antt =====
-- The client of src/client/tokio.rs on its connection resolves a task as the scheduler and the wire
-- say.
use imap_client.Prelude.{
  ℕ, suc, false, ◌≤◌, ◌<◌, some, List, [], ◌++◌, ◌≡◌, refl, Result, ok, length,
}
use imap_client.Imap.{CommandBody}
use imap_client.Scheduler.TaskMap.{push_back}
use imap_client.Scheduler.Progress.{enqueue_task}
use imap_client.Resolver.Session.{idle}
use imap_client.Resolver.Session.Talk.{Talk, alone, Talk-Wire}
use imap_client.Scheduler.ClientNext.{ClientNext}
use imap_client.Scheduler.State.{Scheduler, TaskHandle, returns}
use imap_client.Resolver.{resolve_task}
use imap_client.Stream.{Socket}
use imap_client.Stream.Dialogue.{Works}
use imap_client.Tasks.{TaskError}
use imap_client.Tasks.Library.{TaskType, Payload, output_type, library_task, library}
use imap_client.Tokio.Api.{Environment, TokioClient, resolve}
use imap_client.Tokio.Connection.{on_connection}
use imap_client.Tokio.Connection.Wire.{Wire, resolve_on-Wire}

module _ (E : Environment) (N : ClientNext E.T) where
  -- The tag of the next command, and what enqueueing it returns.
  abbrev pub next_tag : Scheduler (library E.I E.T) N → E.T.Tag
  next_tag s = (N.generate s.tag_generator).0

  abbrev pub enqueued :
      Scheduler (library E.I E.T) N → CommandBody E.T → E.T.CommandHandle × N.Client
  enqueued s body = N.enqueue_command s.client_next (record { tag = next_tag s; body = body })

  enqueue-alone :
      (t : TaskType) (task : (library_task E.I E.T t).Self) (s : Scheduler (library E.I E.T) N)
      (body : CommandBody E.T)
      → s.waiting_tasks ≡ []
      → s.active_tasks ≡ []
      → (library_task E.I E.T t).command_body task ≡ some body
      → resolve_task (record { scheduler = s }) t task
        ≡ returns
            (record {
              resolver = record {
                scheduler =
                    alone t
                      (record { handle = (enqueued s body).0 })
                      (next_tag s)
                      (N.generate s.tag_generator).1
                      false
                      (enqueued s body).1
                      task;
              };
              handle = record { handle = (enqueued s body).0 };
            })
            tt
  unfolding resolve_task enqueue_task push_back
  enqueue-alone t task s body w a b = rw (resolve_task, enqueue_task, b, w, a) refl

module _ (E : Environment) (N : ClientNext E.T) (K : Socket) (works : Works K)
    (inner outer fuel : ℕ) where
  -- A client over a socket that works, whose scheduler does what the wire says.
  resolve-Wire :
      (n : ℕ) (t : TaskType) (task : (library_task E.I E.T t).Self)
      (c : TokioClient (on_connection E N K inner (suc outer) fuel))
      (handle : TaskHandle (library E.I E.T) t) {started s' : Scheduler (library E.I E.T) N}
      {ws rs rest : List (List ℕ)} {out : Result (Payload E.T (output_type t)) (TaskError E.T)}
      → resolve_task c.state.resolver t task
        ≡ returns (record { resolver = record { scheduler = started }; handle = handle }) tt
      → Wire handle n started ws rs out s'
      → works.incoming c.stream ≡ rs ++ rest
      → length rs < fuel
      → n < inner
      → n ≤ outer
      → (stream' : K.S) × (resolve {E = on_connection E N K inner (suc outer) fuel} t task c
          ≡ some (
            ok out,
            record c {
              state = record c.state { resolver = record { scheduler = s' } };
              stream = stream';
            },
          ))
        × (works.incoming stream' ≡ rest)
        × (works.written stream' ≡ works.written c.stream ++ ws)
  unfolding resolve
  resolve-Wire n t task c handle h w i f a b =
      let (stream', ends, left, written) =
        resolve_on-Wire (library E.I E.T) N inner outer handle K works fuel n task c.state.resolver
          c.stream h w i f a b in
      (stream', rw ends refl, left, written)

  -- A client whose scheduler is at rest resolves a task over a socket that works: if the client of
  -- imap-next takes its command and then yields a talk, with data, outputs and waits in any order,
  -- that ends with the tagged status of the command, then `resolve` returns the output that the
  -- task makes of that status after it was offered all the data. It has written the outputs in
  -- their order and read the chunks of input that were waited for and no more, and its scheduler is
  -- at rest again. The fuel suffices if the talk has fewer results and fewer chunks.
  pub resolve-Talk :
      (n : ℕ) (t : TaskType) (task : (library_task E.I E.T t).Self)
      (c : TokioClient (on_connection E N K inner (suc outer) fuel)) (body : CommandBody E.T)
      {c' : N.Client} {ws rs rest : List (List ℕ)}
      {out : Result (Payload E.T (output_type t)) (TaskError E.T)}
      → let s = c.state.resolver.scheduler in
        let handle : TaskHandle (library E.I E.T) t = record { handle = (enqueued E N s body).0 } in
        s.waiting_tasks ≡ []
        → s.active_tasks ≡ []
        → (library_task E.I E.T t).command_body task ≡ some body
        → Talk N t handle (next_tag E N s) false n (enqueued E N s body).1 task ws rs out c'
        → works.incoming c.stream ≡ rs ++ rest
        → length rs < fuel
        → n < inner
        → n ≤ outer
        → (stream' : K.S) × (resolve {E = on_connection E N K inner (suc outer) fuel} t task c
            ≡ some (
              ok out,
              record c {
                state = record c.state {
                  resolver = record {
                    scheduler = idle t handle (next_tag E N s) [] (N.generate s.tag_generator).1 c';
                  };
                };
                stream = stream';
              },
            ))
          × (works.incoming stream' ≡ rest)
          × (works.written stream' ≡ works.written c.stream ++ ws)
  resolve-Talk n t task c body w a b talk i f p q =
      let s = c.state.resolver.scheduler in
      resolve-Wire n t task c (record { handle = (enqueued E N s body).0 })
        (enqueue-alone E N t task s body w a b)
        (Talk-Wire t _ (next_tag E N s) (N.generate s.tag_generator).1 talk) i f p q
