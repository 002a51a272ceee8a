-- ===== src/Tokio/Sending.antt =====
-- What a method of src/client/tokio.rs sends, step by step, and what the server must have advertised
-- for it.
use imap_client.Prelude.{
  Option, none, some, List, [], ◌∷◌, ◌++◌, append-nil, append_assoc, ◌≡◌, refl, sym, ap, ◌∙◌,
  Result, ok, err, All,
}
use imap_client.Tasks.{TaskError}
use imap_client.Tasks.Library.{TaskType, library_task, output_type, Payload}
use imap_client.Tokio.Api.{Environment, Method, TokioClient, ClientError, after, answered, resolve}
use imap_client.Tokio.MovePlan.{Step}
use imap_client.Tokio.Needs.{Named, Same, BodyNeeds-Same, TaskNeeds}

-- The stream keeps a log of the tasks that it was given: `resolve_task` adds one.
pub record Log (E : Environment) : Type 0 where
  pub sent : E.Stream → List (Step E)
  pub logs :
      (t : TaskType) (task : (library_task E.I E.T t).Self) (resolver resolver' : E.Resolver)
      (stream stream' : E.Stream)
      (answer : Result (Result (Payload E.T (output_type t)) (TaskError E.T)) E.StreamError)
      → E.resolve_task t task resolver stream ≡ some (answer, (resolver', stream'))
      → sent stream' ≡ sent stream ++ (t, task) ∷ []

module _ {E : Environment} (log : Log E) (X : Named → Type 0) where
  open E use {T}

  -- The commands of these tasks are fit for the server, by what the client knows of it.
  abbrev pub Fit : TokioClient E → List (Step E) → Type 0
  Fit c steps = All (λ step. TaskNeeds E X c.state step.0 step.1) steps

  -- A method that ends like this has sent the commands of tasks that are all fit.
  abbrev pub SendsFit :
      {A : Type 0} → TokioClient E → Option (Result A (ClientError E) × TokioClient E) → Type 0
  SendsFit c none = Unit
  SendsFit c (some (r, c')) =
      (steps : List (Step E)) × (log.sent c'.stream ≡ log.sent c.stream ++ steps) × Fit c steps

  -- It has not changed what the client knows, besides.
  abbrev pub Tells :
      {A : Type 0} → TokioClient E → Option (Result A (ClientError E) × TokioClient E) → Type 0
  Tells c none = Unit
  Tells c (some (r, c')) = Same c.state c'.state × SendsFit c (some (r, c'))

  Fit-Same :
      (c c' : TokioClient E) (steps : List (Step E))
      → Same c.state c'.state
      → Fit c' steps
      → Fit c steps
  Fit-Same c c' [] same fit = tt
  Fit-Same c c' ((t, task) ∷ steps) same (fit, rest) =
      (BodyNeeds-Same X c.state c'.state _ same fit, Fit-Same c c' steps same rest)

  Fit-append : (c : TokioClient E) (xs ys : List (Step E)) → Fit c xs → Fit c ys → Fit c (xs ++ ys)
  Fit-append c [] ys h k = k
  Fit-append c (x ∷ xs) ys (h, hs) k = (h, Fit-append c xs ys hs k)

  pub nothing_sent :
      {A : Type 0} (c : TokioClient E) (r : Result A (ClientError E)) → SendsFit c (some (r, c))
  nothing_sent c r = ([], sym (append-nil (log.sent c.stream)), tt)

  SendsFit-trans :
      {A : Type 0} (c c₁ : TokioClient E) (steps : List (Step E))
      (o : Option (Result A (ClientError E) × TokioClient E))
      → Same c.state c₁.state
      → log.sent c₁.stream ≡ log.sent c.stream ++ steps
      → Fit c steps
      → SendsFit c₁ o
      → SendsFit c o
  SendsFit-trans c c₁ steps none same e fit k = tt
  SendsFit-trans c c₁ steps (some (r, c')) same e fit (more, e', fit') = (
    steps ++ more,
    e' ∙ ap (λ xs. xs ++ more) e ∙ append_assoc (log.sent c.stream) steps more,
    Fit-append c steps more fit (Fit-Same c c₁ more same fit'),
  )

  -- After a step that changed nothing the client knows.
  pub after-SendsFit :
      {A B : Type 0} (c : TokioClient E) (f : A → Method E B)
      (o : Option (Result A (ClientError E) × TokioClient E))
      → Tells c o
      → ((a : A) (c' : TokioClient E) → SendsFit c' (f a c'))
      → SendsFit c (after f o)
  after-SendsFit c f none h k = tt
  after-SendsFit c f (some (ok a, c')) (same, (steps, e, fit)) k =
      SendsFit-trans c c' steps (f a c') same e fit (k a c')
  after-SendsFit c f (some (err x, c')) (same, h) k = h

  Tells-trans :
      {A : Type 0} (c c₁ : TokioClient E) (steps : List (Step E))
      (o : Option (Result A (ClientError E) × TokioClient E))
      → Same c.state c₁.state
      → log.sent c₁.stream ≡ log.sent c.stream ++ steps
      → Fit c steps
      → Tells c₁ o
      → Tells c o
  Tells-trans c c₁ steps none same e fit k = tt
  Tells-trans c c₁ steps (some (r, c')) same e fit (same', k) =
      ((same'.0 ∙ same.0, same'.1 ∙ same.1), SendsFit-trans c c₁ steps (some (r, c')) same e fit k)

  pub after-Tells :
      {A B : Type 0} (c : TokioClient E) (f : A → Method E B)
      (o : Option (Result A (ClientError E) × TokioClient E))
      → Tells c o
      → ((a : A) (c' : TokioClient E) → Tells c' (f a c'))
      → Tells c (after f o)
  after-Tells c f none h k = tt
  after-Tells c f (some (ok a, c')) (same, (steps, e, fit)) k =
      Tells-trans c c' steps (f a c') same e fit (k a c')
  after-Tells c f (some (err x, c')) h k = h

  pub resolve-Tells :
      (c : TokioClient E) (t : TaskType) (task : (library_task E.I T t).Self)
      → TaskNeeds E X c.state t task
      → Tells c (resolve {E = E} t task c)
  unfolding resolve
  resolve-Tells c t task needs = go (E.resolve_task t task c.state.resolver c.stream) refl
    where
      go :
          (o : Option (
            Result (Result (Payload T (output_type t)) (TaskError T)) E.StreamError
            × (E.Resolver × E.Stream)))
          → E.resolve_task t task c.state.resolver c.stream ≡ o
          → Tells c (answered c o)
      go none e = tt
      go (some (ok a, (r, s))) e =
          ((refl, refl), ((t, task) ∷ [], log.logs t task _ r _ s (ok a) e, (needs, tt)))
      go (some (err x, (r, s))) e =
          ((refl, refl), ((t, task) ∷ [], log.logs t task _ r _ s (err x) e, (needs, tt)))
