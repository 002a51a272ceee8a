-- ===== src/Tokio/Advertised.antt =====
-- Which commands the methods of src/client/tokio.rs send to which server.
use imap_client.Prelude.{
  false, Option, none, some, List, [], ◌∷◌, ◌++◌, ◌≡◌, refl, Result, ok, err, subst, not, ◌||◌,
  Bool-cases, inl, inr,
}
use imap_client.Imap.{Capability, CapabilityEnable, Vec1}
use imap_client.Client.{ext_enable_supported, ext_sasl_ir_supported, ext_condstore_supported}
use imap_client.Client.FetchOrder.{Keys}
use imap_client.Tasks.Authenticate.{AuthenticateTask}
use imap_client.Tasks.Authenticate
use imap_client.Tasks.Library.{TaskType, all_tasks, library_task, output_type, Payload}
use imap_client.Tokio.Api.{
  Environment, Method, TokioClient, ClientError, TryInto, after, run, validation,
}
use imap_client.Tokio.Calls.{Call, invoke, Asks}
use imap_client.Tokio.Closed.{Closed, run-at}
use imap_client.Tokio.Commands
use imap_client.Tokio.Login
use imap_client.Tokio.Methods.{invoke-Holds}
use imap_client.Tokio.MovePlan.{Step}
use imap_client.Tokio.Sending.{
  Log, Fit, SendsFit, Tells, nothing_sent, after-SendsFit, after-Tells, resolve-Tells,
}
use imap_client.Tokio.Needs.{Named, TaskNeeds, authenticate-Needs}
use imap_client.Tokio.Parts.{enable-Holds}

module _ {E : Environment} (log : Log E) (X : Named → Type 0) where
  abbrev tells-Closed : Closed E ⊥ ⊥ Unit X
  tells-Closed = record {
    Q = Tells log X;
    same = λ c r. ((refl, refl), nothing_sent log X c r);
    later = after-Tells log X;
    resolves = resolve-Tells log X;
    saves = λ s c capabilities. absurd s;
    enables = λ f c enabled. absurd f;
    panics = λ _ c n e h. tt;
  }

  open E use {T}

  -- A change of what the client knows sends nothing.
  save-SendsFit :
      (output : Option (Vec1 (Capability T))) (c : TokioClient E)
      → SendsFit log X c (Login.save_or_refresh E output c)
  unfolding Login.refresh_capabilities all_tasks
  save-SendsFit (some capabilities) c = nothing_sent log X c (ok tt)
  save-SendsFit none c =
      after-SendsFit log X c _ (run {E = E} TaskType.capability _ c)
        (run-at tells-Closed c TaskType.capability _ tt)
        (λ capabilities c'. nothing_sent log X c' (ok tt))

  run-SendsFit :
      (t : TaskType) (task : (library_task E.I T t).Self)
      (f : Payload T (output_type t) → Method E (Unit {0})) (c : TokioClient E)
      → TaskNeeds E X c.state t task
      → ((a : Payload T (output_type t)) (c' : TokioClient E) → SendsFit log X c' (f a c'))
      → SendsFit log X c (after f (run {E = E} t task c))
  run-SendsFit t task f c needs k =
      after-SendsFit log X c f (run {E = E} t task c) (run-at tells-Closed c t task needs) k

  authenticate-SendsFit :
      (task : (library_task E.I T TaskType.authenticate).Self) (c : TokioClient E)
      → TaskNeeds E X c.state TaskType.authenticate task
      → SendsFit log X c (Login.authenticate E task c)
  unfolding Login.authenticate
  authenticate-SendsFit task c needs =
      run-SendsFit TaskType.authenticate task (Login.save_or_refresh E) c needs save-SendsFit

  login-SendsFit :
      (username password : TryInto E T.AString) (c : TokioClient E)
      → SendsFit log X c (Login.login E username password c)
  unfolding Login.login all_tasks
  login-SendsFit (ok username) (ok password) c =
      run-SendsFit TaskType.login _ (Login.save_or_refresh E) c tt save-SendsFit
  login-SendsFit (ok username) (err e) c = nothing_sent log X {A = Unit {0}} c (err (validation e))
  login-SendsFit (err e) password c = nothing_sent log X {A = Unit {0}} c (err (validation e))

  condstore-SendsFit :
      (K : Keys T) (c : TokioClient E)
      → SendsFit log X c (Commands.enable_condstore_if_supported E c)
  unfolding Commands.enable_condstore_if_supported
  condstore-SendsFit K c =
      elim (Bool-cases
        (not (ext_condstore_supported c.state) || not (ext_enable_supported c.state))) [
          | inl e ↦ rw e (nothing_sent log X c (ok false))
          | inr e ↦ rw e (
              after-SendsFit log X c _ (Commands.enable E (CapabilityEnable.cond_store ∷ []) c)
                (enable-Holds K tells-Closed (CapabilityEnable.cond_store ∷ []) c)
                (λ capabilities c'.
                  nothing_sent log X c' (ok (Commands.contains_condstore E capabilities))))
        ]

module _ {E : Environment} (log : Log E) (K : Keys E.T) where
  Tells→SendsFit :
      {A : Type 0} (X : Named → Type 0) (c : TokioClient E)
      (o : Option (Result A (ClientError E) × TokioClient E))
      → Tells log X c o
      → SendsFit log X c o
  Tells→SendsFit X c none h = tt
  Tells→SendsFit X c (some (r, c')) h = h.1

  invoke-SendsFit :
      {A : Type 0} (call : Call E A) (c : TokioClient E)
      → SendsFit log (Asks call) c (invoke E K call c)
  unfolding invoke Login.authenticate_plain Login.authenticate_xoauth2
      Login.authenticate_oauthbearer Authenticate.plain Authenticate.xoauth2
      Authenticate.oauthbearer all_tasks
  invoke-SendsFit Call.refresh_capabilities c =
      save-SendsFit log (Asks {E = E} Call.refresh_capabilities) none c
  invoke-SendsFit (Call.login a b) c = login-SendsFit log (Asks {E = E} (Call.login a b)) a b c
  invoke-SendsFit (Call.authenticate_plain a b) c =
      let task = Authenticate.plain a b (ext_sasl_ir_supported c.state) in
      authenticate-SendsFit log (Asks {E = E} (Call.authenticate_plain a b)) task c
        (authenticate-Needs E (Asks {E = E} (Call.authenticate_plain a b)) c.state task _ refl refl)
  invoke-SendsFit (Call.authenticate_xoauth2 a b) c =
      let task = Authenticate.xoauth2 a b (ext_sasl_ir_supported c.state) in
      authenticate-SendsFit log (Asks {E = E} (Call.authenticate_xoauth2 a b)) task c (
        authenticate-Needs E (Asks {E = E} (Call.authenticate_xoauth2 a b)) c.state task _ refl
          refl)
  invoke-SendsFit (Call.authenticate_oauthbearer a b h d) c =
      let task = Authenticate.oauthbearer a b h d (ext_sasl_ir_supported c.state) in
      authenticate-SendsFit log (Asks {E = E} (Call.authenticate_oauthbearer a b h d)) task c (
        authenticate-Needs E (Asks {E = E} (Call.authenticate_oauthbearer a b h d)) c.state task _
          refl refl)
  invoke-SendsFit Call.enable_condstore_if_supported c =
      condstore-SendsFit log (Asks {E = E} Call.enable_condstore_if_supported) K c
  invoke-SendsFit call c = Tells→SendsFit (Asks call) c (invoke E K call c) (
      invoke-Holds K (tells-Closed log (Asks call)) call (λ p. cc) (λ p. cc) (λ _. tt) (λ n x. x) c)

  -- A call that returns has sent tasks that all have a command, and one that is fit for the server,
  -- by what the client knew of it when it was called: ENABLE and ID only if the server has these extensions; MOVE and SORT
  -- only if the server has that extension or the call is `move` or `uid_move`, or `sort` or `uid_sort`;
  -- THREAD only if the call is `thread` or `uid_thread`;
  -- a literal8 only with BINARY, an initial response exactly with SASL-IR, and the parameter CONDSTORE
  -- of SELECT and EXAMINE exactly if it was enabled.
  pub invoke-Fit :
      {A : Type 0} (call : Call E A) (c c' : TokioClient E) (r : Result A (ClientError E))
      → invoke E K call c ≡ some (r, c')
      → (steps : List (Step E)) × (log.sent c'.stream ≡ log.sent c.stream ++ steps)
        × Fit log (Asks call) c steps
  invoke-Fit call c c' r h = subst (SendsFit log (Asks call) c) h (invoke-SendsFit call c)
