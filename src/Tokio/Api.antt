-- ===== src/Tokio/Api.antt =====
-- The `Client` of src/client/tokio.rs, and how its methods run.
--
-- A method is a function from the client to its result and the client behind it: `none` where it
-- does not come back, because an `unwrap` panics or a connection never answers. Each `await` runs
-- to its end. `Environment` is what the client does not implement: how a connection resolves a
-- task, which Tokio/Connection fills with the stream and the resolver, and the conversions of the
-- crate imap-types.
use imap_client.Prelude.{ℕ, String, Option, none, some, List, Result, ok, err}
use imap_client.Prelude.HashMap.{Iteration}
use imap_client.Imap.{ImapTypes, MessageDataItemName}
use imap_client.Tasks.{TaskError}
use imap_client.Tasks.Library.{TaskType, Payload, output_type, library_task, library}
use imap_client.Scheduler.State.{SchedulerEvent}
use imap_client.Client.{Client}

pub record Environment : Type 1 where
  pub I : Iteration
  pub T : ImapTypes
  -- `Resolver`, `Stream<MaybeTlsStream>` and `stream::Error<SchedulerError>`
  pub Resolver : Type 0
  pub Stream : Type 0
  pub StreamError : Type 0
  pub ValidationError : Type 0
  -- `std::io::Error`, the errors of rustls and of its PEM parser
  pub IoError : Type 0
  pub TlsError : Type 0
  pub PemError : Type 0
  pub PathBuf : Type 0
  -- `stream.next(resolver.resolve(task))`
  pub resolve_task :
      (t : TaskType)
      → (library_task I T t).Self
      → Resolver
      → Stream
      → Option (
          Result (Result (Payload T (output_type t)) (TaskError T)) StreamError
          × (Resolver × Stream))
  -- `stream.next(resolver)`
  pub next_event :
      Resolver
      → Stream
      → Option (Result (SchedulerEvent (library I T)) StreamError × (Resolver × Stream))
  -- `Literal::validate`, where `none` stands for `Ok(())`, and `Literal::unvalidated`
  pub literal_validate : List ℕ → Option ValidationError
  pub literal_unvalidated : List ℕ → T.Literal
  -- `Macro::expand`
  pub expand : T.Macro → List (MessageDataItemName T)
  -- `SequenceSet::try_from`, of a list and of one number
  pub sequence_set_try_from : List ℕ → Result T.SequenceSet ValidationError
  pub sequence_set_try_from_one : ℕ → Result T.SequenceSet ValidationError

module _ (E : Environment) where
  open E use {
    T, Resolver, Stream, StreamError, ValidationError, IoError, TlsError, PemError, PathBuf,
  }

  pub data ClientError : Type 0 where
    client_already_tls_error : ClientError
    do_starttls_prefix_error : IoError → ClientError
    stream : StreamError → ClientError
    validation : ValidationError → ClientError
    connect_to_tcp_stream_error : IoError → ClientError
    connect_to_tls_stream_error : IoError → ClientError
    tls_config : TlsError → ClientError
    receive_greeting : StreamError → ClientError
    resolve_task : TaskError T → ClientError
    empty_cert : PathBuf → ClientError
    invalid_cert : PemError → PathBuf → ClientError

  pub record TokioClient : Type 0 where
    pub host : String
    pub state : Client T Resolver
    pub stream : Stream

  abbrev pub Method : Type 0 → Type 0
  Method A = TokioClient → Option (Result A ClientError × TokioClient)

  -- What `try_into` makes of an argument of type `impl TryInto<A>`.
  abbrev pub TryInto : Type 0 → Type 0
  TryInto A = Result A ValidationError

module _ {E : Environment} where
  open E use {T, Resolver, Stream, StreamError, ValidationError}

  abbrev pub pure : {A : Type 0} → A → Method E A
  pure a c = some (ok a, c)

  abbrev pub throw : {A : Type 0} → ClientError E → Method E A
  throw e c = some (err e, c)

  -- A panic.
  abbrev pub panic : {A : Type 0} → Method E A
  panic c = none

  -- What comes after a step: `?` returns its error.
  abbrev pub after :
      {A B : Type 0}
      → (A → Method E B)
      → Option (Result A (ClientError E) × TokioClient E)
      → Option (Result B (ClientError E) × TokioClient E)
  after f none = none
  after f (some (ok a, c)) = f a c
  after f (some (err e, c)) = some (err e, c)

  infixl 5 ◌>>=◌ ◌>>◌
  abbrev pub ◌>>=◌ : {A B : Type 0} → Method E A → (A → Method E B) → Method E B
  ◌>>=◌ m f c = after f (m c)

  abbrev pub ◌>>◌ : {B : Type 0} → Method E (Unit {0}) → Method E B → Method E B
  m >> k = m >>= λ _. k

  -- The state of the client, and a change of it.
  abbrev pub gets : {A : Type 0} → (Client T Resolver → A) → Method E A
  gets f c = some (ok (f c.state), c)

  abbrev pub modify : (Client T Resolver → Client T Resolver) → Method E (Unit {0})
  modify f c = some (ok tt, record c { state = f c.state })

  -- `?` on a conversion, and on the output of a task.
  abbrev pub converted : {A : Type 0} → Result A ValidationError → Method E A
  converted (ok a) = pure a
  converted (err e) = throw (validation e)

  abbrev pub checked : {A : Type 0} → Result A (TaskError T) → Method E A
  checked (ok a) = pure a
  checked (err e) = throw (ClientError.resolve_task e)

  abbrev pub answered :
      {A : Type 0}
      → TokioClient E
      → Option (Result A StreamError × (Resolver × Stream))
      → Option (Result A (ClientError E) × TokioClient E)
  answered c none = none
  answered c (some (ok a, (resolver, stream'))) =
      some (ok a, record c { state = record c.state { resolver = resolver }; stream = stream' })
  answered c (some (err e, (resolver, stream'))) = some (
    err (ClientError.stream e),
    record c { state = record c.state { resolver = resolver }; stream = stream' },
  )

  unfoldable pub resolve :
      (t : TaskType)
      → (library_task E.I T t).Self
      → Method E (Result (Payload T (output_type t)) (TaskError T))
  resolve t task c = answered c (E.resolve_task t task c.state.resolver c.stream)

  -- `self.resolve(task).await??`
  unfoldable pub run :
      (t : TaskType) → (library_task E.I T t).Self → Method E (Payload T (output_type t))
  run t task = resolve t task >>= checked
