-- ===== src/Tokio/Login.antt =====
-- The medium-level API of src/client/tokio.rs: what the client saves of the capabilities of its
-- server, and what it sends depending on them.
use imap_client.Prelude.{
  ℕ, Bool, true, false, Option, none, some, List, Result, ok, err, if◌then◌else◌,
}
use imap_client.Imap.{Capability, Flag, LiteralOrLiteral8, literal8, literal, Vec1}
use imap_client.Client.{Client, ext_sasl_ir_supported, ext_id_supported, ext_binary_supported}
use imap_client.Scheduler.State.{SchedulerEvent}
use imap_client.Tasks.Library.{TaskType, all_tasks, library_task, library}
use imap_client.Tasks.CapabilityQuery.{code_capabilities}
use imap_client.Tasks.Append
use imap_client.Tasks.AppendUid
use imap_client.Tasks.Authenticate
use imap_client.Tasks.CapabilityQuery
use imap_client.Tasks.Login
use imap_client.Tasks.ServerId
use imap_client.Tokio.Api.{
  Environment, Method, TokioClient, ClientError, TryInto, pure, ◌>>=◌, gets, modify, converted, run,
}

module _ (E : Environment) where
  open E use {I, T, Resolver}

  abbrev pub save_capabilities : Vec1 (Capability T) → Client T Resolver → Client T Resolver
  save_capabilities capabilities s = record s { capabilities = capabilities }

  unfoldable pub refresh_capabilities : Method E (Unit {0})
  unfolding all_tasks
  refresh_capabilities = do
    capabilities ← run TaskType.capability CapabilityQuery.new
    modify (save_capabilities capabilities)

  -- The `match` on the output of LOGIN or AUTHENTICATE.
  abbrev pub save_or_refresh : Option (Vec1 (Capability T)) → Method E (Unit {0})
  save_or_refresh (some capabilities) = modify (save_capabilities capabilities)
  save_or_refresh none = refresh_capabilities

  unfoldable pub login : TryInto E T.AString → TryInto E T.AString → Method E (Unit {0})
  unfolding all_tasks
  login username password = do
    username ← converted username
    password ← converted password
    output ← run TaskType.login (Login.new username password)
    save_or_refresh output

  unfoldable pub authenticate : (library_task I T TaskType.authenticate).Self → Method E (Unit {0})
  authenticate task = do output ← run TaskType.authenticate task; save_or_refresh output

  unfoldable pub authenticate_plain : (login password : List ℕ) → Method E (Unit {0})
  unfolding all_tasks
  authenticate_plain login password = do
    ir ← gets ext_sasl_ir_supported
    authenticate (Authenticate.plain login password ir)

  unfoldable pub authenticate_xoauth2 : (login token : List ℕ) → Method E (Unit {0})
  unfolding all_tasks
  authenticate_xoauth2 login token = do
    ir ← gets ext_sasl_ir_supported
    authenticate (Authenticate.xoauth2 login token ir)

  unfoldable pub authenticate_oauthbearer :
      (user host : List ℕ) (port : ℕ) (token : List ℕ) → Method E (Unit {0})
  unfolding all_tasks
  authenticate_oauthbearer user host port token = do
    ir ← gets ext_sasl_ir_supported
    authenticate (Authenticate.oauthbearer user host port token ir)

  unfoldable pub id : ServerId.Parameters T → Method E (ServerId.Parameters T)
  unfolding all_tasks
  id params = do
    supported ← gets ext_id_supported
    if supported then run TaskType.id (ServerId.new params) else pure none

  abbrev pub to_static_literal : List ℕ → Bool → TryInto E (LiteralOrLiteral8 T)
  to_static_literal message ext_binary_supported =
      if ext_binary_supported then ok (literal8 message) else elim (E.literal_validate message) [
        | none ↦ ok (literal (E.literal_unvalidated message))
        | some e ↦ err e
      ]

  unfoldable pub append : TryInto E T.Mailbox → List (Flag T) → List ℕ → Method E (Option ℕ)
  unfolding all_tasks
  append mailbox flags message = do
    mbox ← converted mailbox
    binary ← gets ext_binary_supported
    msg ← converted (to_static_literal message binary)
    run TaskType.append (Append.with_flags (Append.new mbox msg) flags)

  unfoldable pub appenduid :
      TryInto E T.Mailbox → List (Flag T) → List ℕ → Method E (Option (ℕ × ℕ))
  unfolding all_tasks
  appenduid mailbox flags message = do
    mbox ← converted mailbox
    binary ← gets ext_binary_supported
    msg ← converted (to_static_literal message binary)
    run TaskType.append_uid (AppendUid.with_flags (AppendUid.new mbox msg) flags)

  -- What an event has of capabilities, if it is a greeting.
  abbrev pub greeting_capabilities : SchedulerEvent (library I T) → Option (Vec1 (Capability T))
  greeting_capabilities (SchedulerEvent.greeting_received greeting) =
      code_capabilities greeting.code
  greeting_capabilities _ = none

  abbrev pub greeted :
      TokioClient E
      → Option (Result (SchedulerEvent (library I T)) E.StreamError × (Resolver × E.Stream))
      → Option (Result Bool (ClientError E) × TokioClient E)
  greeted c none = none
  greeted c (some (err e, (resolver, stream'))) = some (
    err (ClientError.receive_greeting e),
    record c { state = record c.state { resolver = resolver }; stream = stream' },
  )
  greeted c (some (ok evt, (resolver, stream'))) = elim (greeting_capabilities evt) [
    | some capabilities ↦ some (
      ok true,
      record c {
        state = record c.state { resolver = resolver; capabilities = capabilities };
        stream = stream';
      },
    )
    | none ↦
        some
          (ok false, record c { state = record c.state { resolver = resolver }; stream = stream' })
  ]

  unfoldable pub receive_greeting : Method E Bool
  receive_greeting c = greeted c (E.next_event c.state.resolver c.stream)
