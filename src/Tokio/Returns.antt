-- ===== src/Tokio/Returns.antt =====
-- When the methods of src/client/tokio.rs that resolve tasks come back.
use imap_client.Prelude.{
  ℕ, Bool, true, Option, none, some, ◌≡◌, refl, ◌⊎◌, inl, inr, Result, ok, err,
}
use imap_client.Imap.{Capability, CommandBody, Vec1}
use imap_client.Client.FetchOrder.{Keys}
use imap_client.Tasks.Library.{TaskType, Payload, library_task, output_type}
use imap_client.Tasks.{TaskError}
use imap_client.Tokio.Api.{Environment, Method, TokioClient, ClientError, after, resolve}
use imap_client.Tokio.Calls.{Call, invoke, may_panic}
use imap_client.Tokio.Closed.{Closed}
use imap_client.Tokio.Login.{save_capabilities}
use imap_client.Tokio.Methods.{invoke-Holds}
use imap_client.Tokio.Needs.{BodyNeeds, TaskNeeds}

module _ (E : Environment) where
  open E use {I, T}

  -- A task that has a command, so that no `unwrap` on it panics when it is enqueued.
  abbrev pub HasCommand : (t : TaskType) → (library_task I T t).Self → Type 0
  HasCommand t task = (body : CommandBody T) × ((library_task I T t).command_body task ≡ some body)

  -- How the client of a method changes while the connection answers the tasks that it resolves.
  pub data Reaches : TokioClient E → TokioClient E → Type 0 where
    here : {c : TokioClient E} → Reaches c c
    answers :
        {c c₁ c' : TokioClient E} (t : TaskType) (task : (library_task I T t).Self)
        {r : Result (Result (Payload T (output_type t)) (TaskError T)) (ClientError E)}
        → HasCommand t task
        → resolve {E = E} t task c ≡ some (r, c₁)
        → Reaches c₁ c'
        → Reaches c c'
    saves :
        {c c' : TokioClient E} (capabilities : Vec1 (Capability T))
        → Reaches (record c { state = save_capabilities E capabilities c.state }) c'
        → Reaches c c'
    enables :
        {c c' : TokioClient E} (enabled : Bool)
        → Reaches (record c { state = record c.state { condstore_enabled = enabled } }) c'
        → Reaches c c'

  -- The connection has answered the tasks so far, and it does not answer the next one, which has a
  -- command: to resolve it never ends, or panics.
  pub record Stuck (c : TokioClient E) : Type 0 where
    pub client : TokioClient E
    pub reaches : Reaches c client
    pub t : TaskType
    pub task : (library_task I T t).Self
    pub has_command : HasCommand t task
    pub unanswered : resolve {E = E} t task client ≡ none

  -- The connection has answered the tasks so far, and there is a number that is no sequence set.
  abbrev pub Invalid : TokioClient E → Type 0
  Invalid c =
      (client : TokioClient E) × Reaches c client
      × ((n : ℕ) × (e : E.ValidationError) × (E.sequence_set_try_from_one n ≡ err e))

  -- How a method ends, where `P` says whether it may panic.
  abbrev pub Ending :
      Type 0
      → {A : Type 0} → TokioClient E
      → Option (Result A (ClientError E) × TokioClient E)
      → Type 0
  Ending P c none = Stuck c ⊎ (P × Invalid c)
  Ending P c (some (r, c')) = Reaches c c'

module _ {E : Environment} (P : Type 0) where
  open E use {I, T}

  Reaches-trans : {c c₁ c' : TokioClient E} → Reaches E c c₁ → Reaches E c₁ c' → Reaches E c c'
  Reaches-trans Reaches.here k = k
  Reaches-trans (Reaches.answers t task b e h) k = Reaches.answers t task b e (Reaches-trans h k)
  Reaches-trans (Reaches.saves capabilities h) k = Reaches.saves capabilities (Reaches-trans h k)
  Reaches-trans (Reaches.enables enabled h) k = Reaches.enables enabled (Reaches-trans h k)

  later-Ending :
      {A : Type 0} {c c₁ : TokioClient E} (o : Option (Result A (ClientError E) × TokioClient E))
      → Reaches E c c₁
      → Ending E P c₁ o
      → Ending E P c o
  later-Ending none h (inl s) = inl (record {
    client = s.client;
    reaches = Reaches-trans h s.reaches;
    t = s.t;
    task = s.task;
    has_command = s.has_command;
    unanswered = s.unanswered;
  })
  later-Ending none h (inr (p, (client, k, invalid))) =
      inr (p, (client, Reaches-trans h k, invalid))
  later-Ending (some (r, c')) h k = Reaches-trans h k

  after-Ending :
      {A B : Type 0} (c : TokioClient E) (f : A → Method E B)
      (o : Option (Result A (ClientError E) × TokioClient E))
      → Ending E P c o
      → ((a : A) (c' : TokioClient E) → Ending E P c' (f a c'))
      → Ending E P c (after f o)
  after-Ending c f none h k = h
  after-Ending c f (some (ok a, c')) h k = later-Ending (f a c') h (k a c')
  after-Ending c f (some (err e, c')) h k = h

  TaskNeeds-HasCommand :
      (c : TokioClient E) (t : TaskType) (task : (library_task I T t).Self)
      → TaskNeeds E (λ _. Unit) c.state t task
      → HasCommand E t task
  TaskNeeds-HasCommand c t task needs = go ((library_task I T t).command_body task) refl needs
    where
      go :
          (body : Option (CommandBody T))
          → (library_task I T t).command_body task ≡ body
          → BodyNeeds c.state (λ _. Unit) body
          → HasCommand E t task
      go none e n = absurd n
      go (some body) e n = (body, e)

  resolve-Ending :
      (c : TokioClient E) (t : TaskType) (task : (library_task I T t).Self)
      → HasCommand E t task
      → Ending E P c (resolve {E = E} t task c)
  resolve-Ending c t task b = go (resolve {E = E} t task c) refl
    where
      go :
          (o : Option (
            Result (Result (Payload T (output_type t)) (TaskError T)) (ClientError E)
            × TokioClient E))
          → resolve {E = E} t task c ≡ o
          → Ending E P c o
      go none e = inl (record {
        client = c;
        reaches = Reaches.here;
        t = t;
        task = task;
        has_command = b;
        unanswered = e;
      })
      go (some (r, c₁)) e = Reaches.answers t task b e Reaches.here

  abbrev ends-Closed : Closed E Unit Unit P (λ _. Unit)
  ends-Closed = record {
    Q = Ending E P;
    same = λ c r. Reaches.here;
    later = after-Ending;
    resolves = λ c t task needs. resolve-Ending c t task (TaskNeeds-HasCommand c t task needs);
    saves = λ _ c capabilities. Reaches.saves capabilities Reaches.here;
    enables = λ _ c enabled. Reaches.enables enabled Reaches.here;
    panics = λ p c n e h. inr (p, (c, Reaches.here, (n, e, h)));
  }

module _ (E : Environment) (K : Keys E.T) where
  -- Over any connection, a call that resolves tasks either returns a result or an error after the
  -- connection answered the tasks that it resolved, or the connection has answered tasks up to one
  -- that it does not answer: to resolve it never ends, or panics. Each of these tasks has a command.
  -- Only `appenduid_or_fallback` may end in another way, by a panic, and then there is a number that
  -- is no sequence set. Besides that no `unwrap` of the code of a call itself panics and no loop of
  -- it goes on forever, whatever the arguments, the client and the answers.
  pub invoke-Ending :
      {A : Type 0} (call : Call E A) (c : TokioClient E)
      → Ending E (may_panic call ≡ true) c (invoke E K call c)
  invoke-Ending call c =
      invoke-Holds K (ends-Closed (may_panic call ≡ true)) call (λ _. tt) (λ _. tt) (λ p. p)
        (λ _ _. tt) c
