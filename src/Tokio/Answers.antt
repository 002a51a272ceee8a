-- ===== src/Tokio/Answers.antt =====
-- What a method of src/client/tokio.rs returns over its connection, from what the client of
-- imap-next yields.
use imap_client.Prelude.{
  ℕ, suc, ◌≤◌, ◌<◌, Bool, false, some, none, List, [], ◌∷◌, ◌++◌, ◌≡◌, ◌≢◌, ap, sym, Result, ok,
  err, length, arith,
}
use imap_client.Imap.{ImapTypes, CommandBody, Data, StatusBody, StatusKind, SearchKey, Vec1}
use imap_client.Task.Feed.{wanted, last_or}
use imap_client.Scheduler.ClientNext.{ClientNext}
use imap_client.Resolver.Session.Conversation.{Conversation, output_of, Conversation-Talk}
use imap_client.Stream.{Socket}
use imap_client.Stream.Dialogue.{Works}
use imap_client.Tasks.{TaskError}
use imap_client.Tasks.Expunge
use imap_client.Tasks.ListMailboxes
use imap_client.Tasks.Search
use imap_client.Tasks.Library.{
  TaskType, Payload, output_type, library_task, library, all_tasks, failure, process_tagged_fails,
}
use imap_client.Tokio.Api.{Environment, TokioClient, ClientError, Method, checked, resolve, run}
use imap_client.Tokio.Commands
use imap_client.Tokio.Connection.{on_connection}
use imap_client.Tokio.Delivery.{next_tag, enqueued, resolve-Talk}

-- What a method returns of a task that was completed by a status.
abbrev pub concluded :
    {E : Environment} {A : Type 0} → StatusBody E.T → A → Result A (ClientError E)
concluded status a = elim status.kind [
  | StatusKind.ok ↦ ok a
  | _ ↦ err (ClientError.resolve_task (failure status))
]

-- The criteria of a search: all messages if none are given.
abbrev pub or_all : {T : ImapTypes} → List (SearchKey T) → Vec1 (SearchKey T)
or_all [] = SearchKey.all ∷ []
or_all (k ∷ ks) = k ∷ ks

-- `?` on the output of a task.
checked-concluded :
    {E : Environment} {A : Type 0} (output : Result A (TaskError E.T)) (status : StatusBody E.T)
    (out : A) (c : TokioClient E)
    → (status.kind ≡ StatusKind.ok → output ≡ ok out)
    → (status.kind ≢ StatusKind.ok → output ≡ err (failure status))
    → checked {E = E} output c ≡ some (concluded {E = E} status out, c)
checked-concluded output status out c done failed = ground arith

-- A client at rest over a socket that works, and a conversation of the client of imap-next after
-- it was given a command. The fuel is enough for the conversation.
module _ (E : Environment) (N : ClientNext E.T) (K : Socket) (works : Works K)
    (inner outer fuel : ℕ) (c : TokioClient (on_connection E N K inner (suc outer) fuel))
    (command : CommandBody E.T) (n : ℕ) (ds : List (Data E.T)) (status : StatusBody E.T)
    (ws rs rest : List (List ℕ)) (c' : N.Client)
    (waiting : c.state.resolver.scheduler.waiting_tasks ≡ [])
    (active : c.state.resolver.scheduler.active_tasks ≡ [])
    (conversation : let s = c.state.resolver.scheduler in
      Conversation N
        (enqueued E N s command).0
        (next_tag E N s)
        false
        n
        (enqueued E N s command).1
        ds
        status
        ws
        rs
        c')
    (incoming : works.incoming c.stream ≡ rs ++ rest) (chunks : length rs < fuel) (p : n < inner)
    (q : n ≤ outer) where
  open E use {T}

  abbrev Connected : Environment
  Connected = on_connection E N K inner (suc outer) fuel

  -- The client at rest after the command.
  abbrev pub at_rest : K.S → TokioClient Connected
  at_rest stream' = record c {
    state = record c.state {
      resolver = record {
        scheduler = record {
          client_next = c';
          waiting_tasks = [];
          active_tasks = [];
          tag_generator = (N.generate c.state.resolver.scheduler.tag_generator).1;
        };
      };
    };
    stream = stream';
  }

  -- The method returns the result, has written the outputs of the conversation and read its chunks,
  -- and leaves the client at rest.
  abbrev pub Answers : {A : Type 0} → Method Connected A → Result A (ClientError Connected) → Type 0
  Answers m result =
      (stream' : K.S) × (m c ≡ some (result, at_rest stream'))
      × (works.incoming stream' ≡ rest)
      × (works.written stream' ≡ works.written c.stream ++ ws)

  resolve-Answers :
      (t : TaskType) (task : (library_task E.I T t).Self)
      → (library_task E.I T t).command_body task ≡ some command
      → Answers (resolve {E = Connected} t task) (ok (output_of (library E.I T) t task ds status))
  resolve-Answers t task b =
      resolve-Talk E N K works inner outer fuel n t task c command waiting active b
        (Conversation-Talk t _ _ conversation task) incoming chunks p q

  -- A method that resolves a task, which makes `out` of the data if they are completed by OK.
  run-Answers :
      (t : TaskType) (task : (library_task E.I T t).Self) (out : Payload T (output_type t))
      → (library_task E.I T t).command_body task ≡ some command
      → (status.kind ≡ StatusKind.ok → output_of (library E.I T) t task ds status ≡ ok out)
      → Answers (run {E = Connected} t task) (concluded status out)
  unfolding run
  run-Answers t task out b done =
      let (stream', ends, left, written) = resolve-Answers t task b in
      (
        stream',
        rw ends (
            checked-concluded _ status out (at_rest stream') done
              (process_tagged_fails E.I T t _ status)),
        left,
        written,
      )

  -- The SEARCH of a client at rest over a socket that works: if the client of imap-next takes the
  -- SEARCH command for the criteria, or for all messages if there are none, and then yields a
  -- conversation that ends with the tagged status of that command, then the method writes the
  -- outputs of the conversation, reads its chunks of input and no more, and leaves the client at
  -- rest. It returns the numbers of the last SEARCH response alone, or no numbers if there was none,
  -- where the status is OK, and the error of the status where it is NO or BAD. The fuel suffices if
  -- the conversation has fewer results and fewer chunks.
  pub search-Answers :
      (criteria : List (SearchKey T)) (uid : Bool)
      → command ≡ CommandBody.search none (or_all criteria) uid
      → Answers
          (Commands._search Connected criteria uid)
          (concluded status (last_or (wanted Search.as_search ds) []))
  unfolding Commands._search all_tasks Search.new Search.with_uid
  search-Answers [] uid e = run-Answers TaskType.search _ _ (ap some (sym e)) (λ done.
      Search.search_output (Search.with_uid (Search.new (SearchKey.all ∷ [])) uid) ds status done)
  search-Answers (k ∷ ks) uid e =
      run-Answers TaskType.search _ _ (ap some (sym e))
        (λ done. Search.search_output (Search.with_uid (Search.new (k ∷ ks)) uid) ds status done)

  expunge-Answers :
      command ≡ CommandBody.expunge
      → Answers (Commands.expunge Connected) (concluded status (wanted Expunge.as_expunge ds))
  unfolding Commands.expunge all_tasks
  expunge-Answers e =
      run-Answers TaskType.expunge Expunge.new _ (ap some (sym e))
        (λ done. (Expunge.expunge_transcript ds status done).1)

  list-Answers :
      (mailbox : T.Mailbox) (wildcard : T.ListMailbox)
      → command ≡ CommandBody.list mailbox wildcard
      → Answers
          (Commands.list Connected (ok mailbox) (ok wildcard))
          (concluded status (wanted ListMailboxes.as_list ds))
  unfolding Commands.list all_tasks ListMailboxes.new
  list-Answers mailbox wildcard e =
      run-Answers TaskType.list (ListMailboxes.new mailbox wildcard) _ (ap some (sym e))
        (λ done. (ListMailboxes.list_transcript mailbox wildcard ds status done).1)
