-- ===== src/Tokio/Closed.antt =====
-- Properties of the methods of src/client/tokio.rs that hold of all of them once they hold of the
-- steps that methods are made of.
use imap_client.Prelude.{
  ℕ, Bool, true, false, Option, none, some, List, [], ◌∷◌, ◌≡◌, refl, Result, ok, err,
  if◌then◌else◌,
}
use imap_client.Imap.{Capability, Vec1}
use imap_client.Tasks.Library.{TaskType, library_task}
use imap_client.Tasks.{TaskError}
use imap_client.Tokio.Api.{
  Environment, Method, TokioClient, ClientError, TryInto, after, ◌>>=◌, converted, modify, checked,
  resolve, run,
}
use imap_client.Tokio.Commands.{or_default}
use imap_client.Tokio.Needs.{Named, TaskNeeds}
use imap_client.Tokio.Login.{save_capabilities}

-- `Q c o` is said of a method that ends with `o` from the client `c`. The steps that only some
-- methods make are asked for under a condition: the saving of capabilities, that of the flag for
-- CONDSTORE, a panic on a number that is no sequence set, and a command that needs an extension and
-- is sent because the caller asks for it.
pub record Closed (E : Environment) (Saves Enables Panics : Type 0) (Explicit : Named → Type 0)
    : Type 1 where
  pub Q : {A : Type 0} → TokioClient E → Option (Result A (ClientError E) × TokioClient E) → Type 0
  pub same : {A : Type 0} (c : TokioClient E) (r : Result A (ClientError E)) → Q c (some (r, c))
  pub later :
      {A B : Type 0} (c : TokioClient E) (f : A → Method E B)
      (o : Option (Result A (ClientError E) × TokioClient E))
      → Q c o
      → ((a : A) (c' : TokioClient E) → Q c' (f a c'))
      → Q c (after f o)
  pub resolves :
      (c : TokioClient E) (t : TaskType) (task : (library_task E.I E.T t).Self)
      → TaskNeeds E Explicit c.state t task
      → Q c (resolve {E = E} t task c)
  pub saves :
      Saves
      → (c : TokioClient E) (capabilities : Vec1 (Capability E.T))
      → Q c (modify {E = E} (save_capabilities E capabilities) c)
  pub enables :
      Enables
      → (c : TokioClient E) (enabled : Bool)
      → Q c (modify {E = E} (λ s. record s { condstore_enabled = enabled }) c)
  pub panics :
      Panics
      → {A : Type 0} (c : TokioClient E) (n : ℕ) (e : E.ValidationError)
      → E.sequence_set_try_from_one n ≡ err e
      → Q {A = A} c none

module _ {E : Environment} {S F P : Type 0} {X : Named → Type 0} (closed : Closed E S F P X) where
  abbrev pub Holds : {A : Type 0} → Method E A → Type 0
  Holds m = (c : TokioClient E) → closed.Q c (m c)

  pub bind-Holds :
      {A B : Type 0} (m : Method E A) (f : A → Method E B)
      → Holds m
      → ((a : A) → Holds (f a))
      → Holds (m >>= f)
  bind-Holds m f h k c = closed.later c f (m c) (h c) k

  converted-Holds : {A : Type 0} (a : TryInto E A) → Holds (converted a)
  converted-Holds (ok a) c = closed.same c (ok a)
  converted-Holds (err e) c = closed.same c _

  checked-Holds : {A : Type 0} (a : Result A (TaskError E.T)) → Holds (checked a)
  checked-Holds (ok a) c = closed.same c (ok a)
  checked-Holds (err e) c = closed.same c _

  or_default-Holds : {A : Type 0} (xs : List A) (d : A) → Holds (or_default xs d)
  or_default-Holds [] d c = closed.same c _
  or_default-Holds (x ∷ xs) d c = closed.same c _

  pub if-Holds :
      {A : Type 0} (b : Bool) {m n : Method E A} → Holds m → Holds n → Holds (if b then m else n)
  if-Holds true h k = h
  if-Holds false h k = k

  -- The same from one client, with what the test says.
  pub if-at :
      {A : Type 0} (b : Bool) (m n : Method E A) (c : TokioClient E)
      → (b ≡ true → closed.Q c (m c))
      → (b ≡ false → closed.Q c (n c))
      → closed.Q c ((if b then m else n) c)
  if-at true m n c h k = h refl
  if-at false m n c h k = k refl

  pub with-at :
      {A B : Type 0} (a : TryInto E A) (f : A → Method E B) (c : TokioClient E)
      → ((x : A) → a ≡ ok x → closed.Q c (f x c))
      → closed.Q c ((converted a >>= f) c)
  with-at (ok a) f c k = k a refl
  with-at (err e) f c k = closed.same c _

  pub default-at :
      {A B : Type 0} (xs : List A) (d : A) (f : Vec1 A → Method E B) (c : TokioClient E)
      → ((xs : Vec1 A) → closed.Q c (f xs c))
      → closed.Q c ((or_default xs d >>= f) c)
  default-at [] d f c k = k _
  default-at (x ∷ xs) d f c k = k _

  -- A method that converts an argument first.
  pub with-Holds :
      {A B : Type 0} (a : TryInto E A) (f : A → Method E B)
      → ((a : A) → Holds (f a))
      → Holds (converted a >>= f)
  with-Holds a f k = bind-Holds (converted a) f (converted-Holds a) k

  pub default-Holds :
      {A B : Type 0} (xs : List A) (d : A) (f : Vec1 A → Method E B)
      → ((xs : Vec1 A) → Holds (f xs))
      → Holds (or_default xs d >>= f)
  default-Holds xs d f k = bind-Holds (or_default xs d) f (or_default-Holds xs d) k

  pub run-at :
      (c : TokioClient E) (t : TaskType) (task : (library_task E.I E.T t).Self)
      → TaskNeeds E X c.state t task
      → closed.Q c (run {E = E} t task c)
  unfolding run
  run-at c t task needs =
      closed.later c checked (resolve t task c) (closed.resolves c t task needs) checked-Holds

  pub run-Holds :
      (t : TaskType) (task : (library_task E.I E.T t).Self)
      → ((c : TokioClient E) → TaskNeeds E X c.state t task)
      → Holds (run {E = E} t task)
  run-Holds t task needs c = run-at c t task (needs c)
