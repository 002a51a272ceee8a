-- ===== src/Tokio/Guarantees.antt =====
-- The methods of src/client/tokio.rs leave alone the part of the client that is not their own.
use imap_client.Prelude.{
  true, Option, none, some, ◌≡◌, refl, ◌∙◌, ◌⊎◌, inl, inr, Result, ok, err, subst,
}
use imap_client.Client.FetchOrder.{Keys}
use imap_client.Tasks.Library.{TaskType, library_task}
use imap_client.Tokio.Api.{Environment, Method, TokioClient, ClientError, after, answered, resolve}
use imap_client.Tokio.Calls.{Call, invoke, saves, enables_condstore}
use imap_client.Tokio.Closed.{Closed}
use imap_client.Tokio.Methods.{invoke-Holds}

-- How a method may end.
abbrev Ends : Environment → Type 0 → Type 0
Ends E A = Option (Result A (ClientError E) × TokioClient E)

or_trans : {S A : Type 0} {x y z : A} → S ⊎ (y ≡ x) → S ⊎ (z ≡ y) → S ⊎ (z ≡ x)
or_trans (inl s) k = inl s
or_trans (inr h) (inl s) = inl s
or_trans (inr h) (inr k) = inr (k ∙ h)

module _ {E : Environment} where
  -- The parts of the client that two clients share. The capabilities and the flag for CONDSTORE are
  -- among them unless they may change.
  abbrev pub Agree : (saves enables : Type 0) → TokioClient E → TokioClient E → Type 0
  Agree saves enables c c' =
      (c'.host ≡ c.host)
      × (c'.state.idle_timeout ≡ c.state.idle_timeout)
      × (saves ⊎ (c'.state.capabilities ≡ c.state.capabilities))
      × (enables ⊎ (c'.state.condstore_enabled ≡ c.state.condstore_enabled))

  abbrev Keeps :
      (S F : Type 0) {A : Type 0}
      → TokioClient E
      → Option (Result A (ClientError E) × TokioClient E)
      → Type 0
  Keeps S F c none = Unit
  Keeps S F c (some (r, c')) = Agree S F c c'

  Agree-trans :
      {S F : Type 0} (c c' c'' : TokioClient E)
      → Agree S F c c'
      → Agree S F c' c''
      → Agree S F c c''
  Agree-trans c c' c'' (a, b, s, f) (a', b', s', f') =
      (a' ∙ a, b' ∙ b, or_trans s s', or_trans f f')

  Keeps-trans :
      (S F : Type 0) {A : Type 0} (c c' : TokioClient E) (o : Ends E A)
      → Agree S F c c'
      → Keeps S F c' o
      → Keeps S F c o
  Keeps-trans S F c c' none h k = tt
  Keeps-trans S F c c' (some (r, c'')) h k = Agree-trans c c' c'' h k

  after-Keeps :
      (S F : Type 0) {A B : Type 0} (c : TokioClient E) (f : A → Method E B) (o : Ends E A)
      → Keeps S F c o
      → ((a : A) (c' : TokioClient E) → Keeps S F c' (f a c'))
      → Keeps S F c (after f o)
  after-Keeps S F c f none h k = tt
  after-Keeps S F c f (some (ok a, c')) h k = Keeps-trans S F c c' (f a c') h (k a c')
  after-Keeps S F c f (some (err e, c')) h k = h

  answered-Keeps :
      (S F : Type 0) {A : Type 0} (c : TokioClient E)
      (answer : Option (Result A E.StreamError × (E.Resolver × E.Stream)))
      → Keeps S F c (answered c answer)
  answered-Keeps S F c none = tt
  answered-Keeps S F c (some (ok a, (resolver, stream))) = (refl, refl, inr refl, inr refl)
  answered-Keeps S F c (some (err e, (resolver, stream))) = (refl, refl, inr refl, inr refl)

  resolve-Keeps :
      (S F : Type 0) (c : TokioClient E) (t : TaskType) (task : (library_task E.I E.T t).Self)
      → Keeps S F c (resolve {E = E} t task c)
  unfolding resolve
  resolve-Keeps S F c t task = answered-Keeps S F c _

  abbrev keeps-Closed : (S F : Type 0) → Closed E S F Unit (λ _. Unit)
  keeps-Closed S F = record {
    Q = Keeps S F;
    same = λ c r. (refl, refl, inr refl, inr refl);
    later = after-Keeps S F;
    resolves = λ c t task _. resolve-Keeps S F c t task;
    saves = λ s c capabilities. (refl, refl, inl s, inr refl);
    enables = λ f c enabled. (refl, refl, inr refl, inl f);
    panics = λ _ c n e h. tt;
  }

  -- Whatever the connection does, a call leaves the host and the idle time-out of the client as
  -- they are. It changes the saved capabilities only if it is `refresh_capabilities`, `login` or an
  -- `authenticate_...`, and the flag for CONDSTORE only if it is `enable_condstore_if_supported`.
  pub invoke-Agree :
      (K : Keys E.T) {A : Type 0} (call : Call E A) (c c' : TokioClient E)
      (r : Result A (ClientError E))
      → invoke E K call c ≡ some (r, c')
      → Agree (saves call ≡ true) (enables_condstore call ≡ true) c c'
  invoke-Agree K call c c' r h =
      subst (Keeps (saves call ≡ true) (enables_condstore call ≡ true) c) h (
        invoke-Holds K (keeps-Closed (saves call ≡ true) (enables_condstore call ≡ true)) call
          (λ s. s) (λ f. f) (λ _. tt) (λ _ _. tt) c)
