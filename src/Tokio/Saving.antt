-- ===== src/Tokio/Saving.antt =====
-- Which capabilities `login` and `authenticate` of src/client/tokio.rs save.
use imap_client.Prelude.{Option, none, some, ◌≡◌, refl, subst, Result, ok, err, some_injective, ◌↔◌}
use imap_client.Imap.{Capability, Vec1}
use imap_client.Tasks.CapabilityQuery
use imap_client.Tasks.Login
use imap_client.Tasks.Library.{TaskType, all_tasks, library_task}
use imap_client.Tokio.Api.{Environment, TokioClient, ClientError, run, after, modify}
use imap_client.Tokio.Login.{
  save_capabilities, save_or_refresh, refresh_capabilities, login, authenticate,
}

module _ (E : Environment) where
  open E use {I, T}

  abbrev pub Output : Type 0
  Output = Option (Vec1 (Capability T))

  -- The client with these capabilities saved.
  abbrev pub saved : Vec1 (Capability T) → TokioClient E → TokioClient E
  saved capabilities c = record c { state = save_capabilities E capabilities c.state }

  abbrev pub capability_request :
      TokioClient E → Option (Result (Vec1 (Capability T)) (ClientError E) × TokioClient E)
  unfolding all_tasks
  capability_request c = run {E = E} TaskType.capability CapabilityQuery.new c

  -- How a method ends that saves the capabilities of the server: those of the output of its task,
  -- or, where this has none, those that CAPABILITY asks for. Where a task fails nothing is saved.
  pub data Saves (o : Option (Result Output (ClientError E) × TokioClient E))
      : Result (Unit {0}) (ClientError E) → TokioClient E → Type 0 where
    from_output :
        {c : TokioClient E} {capabilities : Vec1 (Capability T)}
        → o ≡ some (ok (some capabilities), c)
        → Saves o (ok tt) (saved capabilities c)
    from_request :
        {c c' : TokioClient E} {capabilities : Vec1 (Capability T)}
        → o ≡ some (ok none, c)
        → capability_request c ≡ some (ok capabilities, c')
        → Saves o (ok tt) (saved capabilities c')
    request_fails :
        {c c' : TokioClient E} {e : ClientError E}
        → o ≡ some (ok none, c)
        → capability_request c ≡ some (err e, c')
        → Saves o (err e) c'
    task_fails : {c : TokioClient E} {e : ClientError E} → o ≡ some (err e, c) → Saves o (err e) c

  abbrev pub login_task : T.AString → T.AString → (library_task I T TaskType.login).Self
  unfolding all_tasks
  login_task username password = Login.new username password

  Saves-after :
      {o : Option (Result Output (ClientError E) × TokioClient E)}
      {r : Result (Unit {0}) (ClientError E)} {c' : TokioClient E}
      → Saves o r c'
      → after (save_or_refresh E) o ≡ some (r, c')
  unfolding refresh_capabilities all_tasks
  Saves-after (from_output e) = rw e refl
  Saves-after (from_request e k) = rw e (rw k refl)
  Saves-after (request_fails e k) = rw e (rw k refl)
  Saves-after (task_fails e) = rw e refl

  after-Saves :
      (o : Option (Result Output (ClientError E) × TokioClient E))
      (r : Result (Unit {0}) (ClientError E)) (c' : TokioClient E)
      → after (save_or_refresh E) o ≡ some (r, c')
      → Saves o r c'
  unfolding refresh_capabilities all_tasks
  after-Saves none r c' h = cc
  after-Saves (some (ok (some capabilities), c)) r c' h =
      subst (λ x. Saves (some (ok (some capabilities), c)) x.0 x.1) (some_injective h)
        (from_output refl)
  after-Saves (some (ok none, c)) r c' h = requested (capability_request c) refl h
    where
      requested :
          (p : Option (Result (Vec1 (Capability T)) (ClientError E) × TokioClient E))
          → capability_request c ≡ p
          → after (λ capabilities. modify (save_capabilities E capabilities)) p ≡ some (r, c')
          → Saves (some (ok none, c)) r c'
      requested none e h = cc
      requested (some (ok capabilities, c₁)) e h =
          subst (λ x. Saves (some (ok none, c)) x.0 x.1) (some_injective h) (from_request refl e)
      requested (some (err x, c₁)) e h =
          subst (λ x. Saves (some (ok none, c)) x.0 x.1) (some_injective h) (request_fails refl e)
  after-Saves (some (err e, c)) r c' h =
      subst (λ x. Saves (some (err e, c)) x.0 x.1) (some_injective h) (task_fails refl)

  -- `login` with valid names and `authenticate` end exactly as `Saves` says of LOGIN and of
  -- AUTHENTICATE: with the capabilities saved that the task returned, or else with those that
  -- CAPABILITY returned; or with the error of the task that failed, and nothing saved.
  pub login-Saves :
      ((username password : T.AString) (c c' : TokioClient E)
          (r : Result (Unit {0}) (ClientError E))
        → (login E (ok username) (ok password) c ≡ some (r, c'))
          ↔ Saves (run TaskType.login (login_task username password) c) r c')
      × ((task : (library_task I T TaskType.authenticate).Self) (c c' : TokioClient E)
            (r : Result (Unit {0}) (ClientError E))
          → (authenticate E task c ≡ some (r, c')) ↔ Saves (run TaskType.authenticate task c) r c')
  unfolding login authenticate all_tasks
  login-Saves = (
    λ username password c c' r. (after-Saves _ r c', Saves-after),
    λ task c c' r. (after-Saves _ r c', Saves-after),
  )
