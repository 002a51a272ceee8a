-- ===== src/Tokio/Exchanges.antt =====
-- The methods of src/client/tokio.rs that resolve several tasks, over their connection.
use imap_client.Prelude.{
  ℕ, suc, false, ◌≤◌, ◌<◌, some, List, [], ◌∷◌, ◌++◌, ◌≡◌, refl, ◌∙◌, sym, ap, Result, ok, err,
  length, Bool, append-nil, append_assoc,
}
use imap_client.Imap.{CommandBody, Data, StatusBody}
use imap_client.Client.{ext_move_supported}
use imap_client.Scheduler.ClientNext.{ClientNext}
use imap_client.Resolver.Session.Conversation.{Conversation, output_of, Conversation-Talk}
use imap_client.Stream.{Socket}
use imap_client.Stream.Dialogue.{Works}
use imap_client.Tasks.{TaskError}
use imap_client.Tasks.Library.{TaskType, Payload, output_type, library_task, library}
use imap_client.Tokio.Api.{Environment, TokioClient, ClientError, resolve}
use imap_client.Tokio.Connection.{on_connection}
use imap_client.Tokio.Delivery.{resolve-Talk}
use imap_client.Tokio.Fallback.{_move_or_fallback}
use imap_client.Tokio.MovePlan.{Step, Follows, move_plan, move-Follows}

module _ (E : Environment) (N : ClientNext E.T) (K : Socket) (works : Works K)
    (inner outer fuel : ℕ) where
  open E use {T}

  abbrev Connected : Environment
  Connected = on_connection E N K inner (suc outer) fuel

  -- A conversation of the client of imap-next about the command of a task: the client and the tag
  -- generator before, what the task makes of the data and the status, the client after, the outputs
  -- to be written and the chunks of input. The fuel is enough for it.
  pub record Exchange (t : TaskType) (task : (library_task E.I T t).Self) (x : N.Client)
      (g : N.TagGenerator) (out : Result (Payload T (output_type t)) (TaskError T)) (x' : N.Client)
      (ws rs : List (List ℕ)) : Type 0 where
    pub body : CommandBody T
    pub takes : (library_task E.I T t).command_body task ≡ some body
    pub results : ℕ
    pub data_received : List (Data T)
    pub status : StatusBody T
    pub conversation :
        let entered = N.enqueue_command x (record { tag = (N.generate g).0; body = body }) in
        Conversation N entered.0
          (N.generate g).0
          false
          results
          entered.1
          data_received
          status
          ws
          rs
          x'
    pub makes : output_of (library E.I T) t task data_received status ≡ out
    pub inner_enough : results < inner
    pub outer_enough : results ≤ outer
    pub fuel_enough : length rs < fuel

  -- These conversations for tasks that are resolved one after the other, up to the first one that
  -- fails.
  pub data Exchanges
      : List (Step E)
        → N.Client
        → N.TagGenerator
        → Result (Unit {0}) (TaskError T)
        → N.Client
        → N.TagGenerator
        → List (List ℕ)
        → List (List ℕ)
        → Type 0 where
    over : {x : N.Client} {g : N.TagGenerator} → Exchanges [] x g (ok tt) x g [] []
    succeeds :
        {t : TaskType} {task : (library_task E.I T t).Self} {steps : List (Step E)}
        {x x₁ x' : N.Client} {g g' : N.TagGenerator} {r : Result (Unit {0}) (TaskError T)}
        {ws rs ws' rs' : List (List ℕ)} {output : Payload T (output_type t)}
        → Exchange t task x g (ok output) x₁ ws rs
        → Exchanges steps x₁ (N.generate g).1 r x' g' ws' rs'
        → Exchanges ((t, task) ∷ steps) x g r x' g' (ws ++ ws') (rs ++ rs')
    fails :
        {t : TaskType} {task : (library_task E.I T t).Self} {steps : List (Step E)}
        {x x₁ : N.Client} {g : N.TagGenerator} {ws rs : List (List ℕ)} {e : TaskError T}
        → Exchange t task x g (err e) x₁ ws rs
        → Exchanges ((t, task) ∷ steps) x g (err e) x₁ (N.generate g).1 ws rs

  -- A client at rest.
  abbrev pub resting :
      TokioClient Connected → N.Client → N.TagGenerator → K.S → TokioClient Connected
  resting c x g stream' = record c {
    state = record c.state {
      resolver = record {
        scheduler = record {
          client_next = x;
          waiting_tasks = [];
          active_tasks = [];
          tag_generator = g;
        };
      };
    };
    stream = stream';
  }

  abbrev pub as_client_error :
      Result (Unit {0}) (TaskError T) → Result (Unit {0}) (ClientError Connected)
  as_client_error (ok tt) = ok tt
  as_client_error (err e) = err (ClientError.resolve_task e)

  -- The socket after the chunks of input were read and the outputs written.
  abbrev pub Through : K.S → K.S → List (List ℕ) → List (List ℕ) → Type 0
  Through stream stream' rest ws =
      (works.incoming stream' ≡ rest) × (works.written stream' ≡ works.written stream ++ ws)

  Exchange-resolve :
      (c : TokioClient Connected) (t : TaskType) (task : (library_task E.I T t).Self)
      {x x' : N.Client} {g : N.TagGenerator}
      {out : Result (Payload T (output_type t)) (TaskError T)} {ws rs : List (List ℕ)}
      (rest : List (List ℕ))
      → Exchange t task x g out x' ws rs
      → (stream : K.S) → works.incoming stream ≡ rs ++ rest
      → (stream' : K.S) × (resolve {E = Connected} t task (resting c x g stream)
          ≡ some (ok out, resting c x' (N.generate g).1 stream'))
        × Through stream stream' rest ws
  Exchange-resolve c t task {x} {x'} {g} rest e stream i =
      let (stream', ends, left, wrote) =
        resolve-Talk E N K works inner outer fuel e.results t task (resting c x g stream) e.body
          refl refl e.takes (Conversation-Talk t _ _ e.conversation task) i e.fuel_enough
          e.inner_enough e.outer_enough in
      (
        stream',
        ends ∙ ap (λ o. some (ok o, resting c x' (N.generate g).1 stream')) e.makes,
        (left, wrote),
      )

  Exchanges-Follows :
      (c : TokioClient Connected) {steps : List (Step E)} {x x' : N.Client} {g g' : N.TagGenerator}
      {r : Result (Unit {0}) (TaskError T)} {ws rs : List (List ℕ)} (rest : List (List ℕ))
      → Exchanges steps x g r x' g' ws rs
      → (stream : K.S) → works.incoming stream ≡ rs ++ rest
      → (stream' : K.S) × Follows Connected steps
          (resting c x g stream)
          (as_client_error r)
          (resting c x' g' stream')
        × Through stream stream' rest ws
  Exchanges-Follows c rest Exchanges.over stream i =
      (stream, Follows.complete, (i, sym (append-nil _)))
  Exchanges-Follows c rest (Exchanges.succeeds {rs = rs} {ws' = ws'} {rs' = rs'} e more) stream i =
      let (stream₁, ends, (left, wrote)) =
        Exchange-resolve c _ _ (rs' ++ rest) e stream (i ∙ append_assoc rs rs' rest) in
      let (stream', follows, (left', wrote')) = Exchanges-Follows c rest more stream₁ left in
      (
        stream',
        Follows.next ends follows,
        (left', wrote' ∙ ap (λ w. w ++ ws') wrote ∙ append_assoc (works.written stream) _ ws'),
      )
  Exchanges-Follows c rest (Exchanges.fails e) stream i =
      let (stream', ends, through) = Exchange-resolve c _ _ rest e stream i in
      (stream', Follows.refused ends, through)

  -- `_move_or_fallback` of a client at rest over a socket that works: MOVE if the server supports
  -- it, and else COPY, STORE and EXPUNGE in this order. If the client of imap-next takes the command
  -- of each task in turn and yields a conversation about it, up to the first task that fails, then
  -- the method writes the outputs of these conversations in their order, reads their chunks of input
  -- and no more, and leaves the client at rest. It returns the error of the task that failed, after
  -- which no command is given to the client of imap-next, and success if none did.
  pub move-Exchanges :
      (c : TokioClient Connected) (stream : K.S) (sequence_set : T.SequenceSet) (mbox : T.Mailbox)
      (uid : Bool) {x x' : N.Client} {g g' : N.TagGenerator} {r : Result (Unit {0}) (TaskError T)}
      {ws rs : List (List ℕ)} (rest : List (List ℕ))
      → Exchanges
          (move_plan Connected (ext_move_supported c.state) sequence_set mbox uid)
          x
          g
          r
          x'
          g'
          ws
          rs
      → works.incoming stream ≡ rs ++ rest
      → (stream' : K.S) × (_move_or_fallback Connected sequence_set
            (ok mbox)
            uid
            (resting c x g stream)
          ≡ some (as_client_error r, resting c x' g' stream'))
        × Through stream stream' rest ws
  unfolding ext_move_supported
  move-Exchanges c stream sequence_set mbox uid rest exchanges i =
      let (stream', follows, through) = Exchanges-Follows c rest exchanges stream i in
      (stream', (move-Follows Connected sequence_set mbox uid _ _ _).1 follows, through)
