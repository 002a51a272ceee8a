-- ===== src/Programs.antt =====
-- The programs of examples/, which call the library and print what it returns.
pub mod Append
pub mod Keeps
pub mod Condstore
use imap_client.Prelude.{
  ℕ, zero, suc, String, Bool, false, Option, none, some, List, [], ◌∷◌, ◌++◌, Result, ok, err,
}
use imap_client.Imap.{Capability, SearchKey}
use imap_client.Tokio.Api.{Environment, TokioClient, ClientError, Method, TryInto}
use imap_client.Tokio.Connect.{Network, rustls_client}

-- What the programs call of the standard library and of the crate imap-types.
pub record Toolkit (E : Environment) : Type 0 where
  -- `str::parse` into `u16` and `u64`
  pub parse_u16 : String → Option ℕ
  pub parse_u64 : String → Option ℕ
  -- `TryInto<Mailbox>` and `SequenceSet::try_from` of a text
  pub mailbox_try_from : String → TryInto E E.T.Mailbox
  pub sequence_set_try_from_text : String → TryInto E E.T.SequenceSet
  -- `Macro::Fast`, `SearchKey::ModSequence` without an entry, and a test for `Capability::QResync`
  pub fast : E.T.Macro
  pub mod_sequence : ℕ → SearchKey E.T
  pub is_q_resync : Capability E.T → Bool
  -- `include_bytes!("../message.eml")`
  pub message : List ℕ

-- A program on a client, which has printed some lines: `none` where it panics, or where the
-- connection never answers.
abbrev pub Program : Environment → Type 0 → Type 0 → Type 0
Program E Line A = TokioClient E → List Line → Option (A × (TokioClient E × List Line))

module _ {E : Environment} {Line : Type 0} where
  infixl 5 ◌then◌
  -- One program after the other.
  unfoldable pub ◌then◌ :
      {A B : Type 0} → Program E Line A → (A → Program E Line B) → Program E Line B
  ◌then◌ p f client lines = elim (p client lines) [
    | none ↦ none
    | some (a, (client', lines')) ↦ f a client' lines'
  ]

  -- `println!`
  unfoldable pub println : Line → Program E Line (Unit {0})
  println line client lines = some (tt, (client, lines ++ line ∷ []))

  -- A method whose result is kept, and one whose error is unwrapped.
  unfoldable pub awaits : {A : Type 0} → Method E A → Program E Line (Result A (ClientError E))
  awaits m client lines = elim (m client) [
    | none ↦ none
    | some (result, client') ↦ some (result, (client', lines))
  ]

  unfoldable pub unwrap : {A F : Type 0} → Result A F → Program E Line A
  unwrap (ok a) client lines = some (a, (client, lines))
  unwrap (err e) client lines = none

  unfoldable pub unwraps : {A : Type 0} → Method E A → Program E Line A
  unwraps m = awaits m then unwrap

-- `NonZeroU64::new(n).unwrap()`
unfoldable pub nonzero : {E : Environment} {Line : Type 0} → ℕ → Program E Line ℕ
nonzero zero client lines = none
nonzero (suc n) client lines = some (suc n, (client, lines))

-- The arguments that all programs take, and those after them.
pub record Arguments : Type 0 where
  pub host : String
  pub port : ℕ
  pub username : String
  pub password : String
  pub others : List String

module _ {E : Environment} (tools : Toolkit E) where
  -- `expect(USAGE)` and the `unwrap` of the port; the first argument is the name of the program.
  abbrev pub arguments : List String → Option Arguments
  arguments (name ∷ host ∷ port ∷ username ∷ password ∷ others) = elim (tools.parse_u16 port) [
    | none ↦ none
    | some port ↦ some (record {
      host = host;
      port = port;
      username = username;
      password = password;
      others = others;
    })
  ]
  arguments _ = none

  -- `Client::rustls(host, port, false, None).await.unwrap()`, and the program on that client.
  abbrev pub on_client :
      {Line : Type 0}
      → Network E
      → Option Arguments
      → (Arguments → Program E Line (Unit {0}))
      → Option (List Line)
  on_client W none main = none
  on_client W (some args) main = elim (rustls_client E W args.host args.port false none) [
    | some (ok client) ↦ elim (main args client []) [
      | none ↦ none
      | some (result, (client', lines)) ↦ some lines
    ]
    | _ ↦ none
  ]
