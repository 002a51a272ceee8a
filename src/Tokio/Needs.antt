-- ===== src/Tokio/Needs.antt =====
-- What a server must have advertised for a command, as far as the client of src/client/tokio.rs looks
-- at the capabilities that it saved.
use imap_client.Prelude.{
  List, ℕ, ok, inl, inr, sym, ◌∙◌, subst, Bool-cases, arith, true, Option, none, some, [], ◌∷◌, ◌≡◌,
  ◌⊎◌, if◌then◌else◌, is_some,
}
use imap_client.Imap.{ImapTypes, CommandBody, LiteralOrLiteral8, literal8, literal, SelectParameter}
use imap_client.Tasks.Library.{TaskType, library_task}
use imap_client.Client.{
  Client, ext_enable_supported, ext_sasl_ir_supported, ext_id_supported, ext_sort_supported,
  ext_binary_supported, ext_move_supported,
}
use imap_client.Tasks.Authenticate.{AuthenticateTask, command_body}
use imap_client.Tokio.Api.{Environment}
use imap_client.Tokio.Login.{to_static_literal}

-- The commands of extensions that a caller can ask for by their name.
pub data Named : Type 0 where
  move sort thread : Named

module _ {T : ImapTypes} {Res : Type 0} (s : Client T Res) where
  -- A literal8 is for a server with BINARY.
  abbrev pub LiteralNeeds : LiteralOrLiteral8 T → Type 0
  LiteralNeeds (literal8 message) = ext_binary_supported s ≡ true
  LiteralNeeds _ = Unit

  -- ENABLE, ID, MOVE and SORT are for servers with these extensions, and an initial response of
  -- AUTHENTICATE is sent exactly to those with SASL-IR. SELECT and EXAMINE ask for CONDSTORE exactly
  -- if it was enabled. MOVE, SORT and THREAD need no extension where the caller asks for the command
  -- by its name: `Explicit` says for which of them this is so.
  abbrev pub Needs : (Explicit : Named → Type 0) → CommandBody T → Type 0
  Needs Explicit (CommandBody.append _ _ _ message) = LiteralNeeds message
  Needs Explicit (CommandBody.authenticate _ initial_response) =
      is_some initial_response ≡ ext_sasl_ir_supported s
  Needs Explicit (CommandBody.enable _) = ext_enable_supported s ≡ true
  Needs Explicit (CommandBody.id _) = ext_id_supported s ≡ true
  Needs Explicit (CommandBody.move _ _ _) = Explicit Named.move ⊎ (ext_move_supported s ≡ true)
  Needs Explicit (CommandBody.sort _ _ _ _) = Explicit Named.sort ⊎ (ext_sort_supported s ≡ true)
  Needs Explicit (CommandBody.thread _ _ _ _) = Explicit Named.thread
  Needs Explicit (CommandBody.select _ parameters) =
      parameters ≡ (if s.condstore_enabled then SelectParameter.cond_store ∷ [] else [])
  Needs Explicit (CommandBody.examine _ parameters) =
      parameters ≡ (if s.condstore_enabled then SelectParameter.cond_store ∷ [] else [])
  Needs Explicit _ = Unit

  -- There is a command, and it has what it needs.
  abbrev pub BodyNeeds : (Named → Type 0) → Option (CommandBody T) → Type 0
  BodyNeeds Explicit none = ⊥
  BodyNeeds Explicit (some body) = Needs Explicit body

module _ {T : ImapTypes} {Res : Type 0} where
  -- Two states of the client that agree on the capabilities and on the flag for CONDSTORE.
  abbrev pub Same : Client T Res → Client T Res → Type 0
  Same s s' = (s'.capabilities ≡ s.capabilities) × (s'.condstore_enabled ≡ s.condstore_enabled)

  Needs-Same :
      (Explicit : Named → Type 0) (s s' : Client T Res) (body : CommandBody T)
      → Same s s'
      → Needs s' Explicit body
      → Needs s Explicit body
  unfolding ext_enable_supported ext_sasl_ir_supported ext_id_supported ext_sort_supported
      ext_binary_supported ext_move_supported
  Needs-Same Explicit s s' body (capabilities, enabled) n =
      subst (λ b. Needs (record s { condstore_enabled = b }) Explicit body) enabled
        (subst (λ x. Needs (record s' { capabilities = x }) Explicit body) capabilities n)

  pub BodyNeeds-Same :
      (Explicit : Named → Type 0) (s s' : Client T Res) (body : Option (CommandBody T))
      → Same s s'
      → BodyNeeds s' Explicit body
      → BodyNeeds s Explicit body
  BodyNeeds-Same Explicit s s' none same n = n
  BodyNeeds-Same Explicit s s' (some body) same n = Needs-Same Explicit s s' body same n

module _ (E : Environment) where
  -- The same for the command that a task sends.
  abbrev pub TaskNeeds :
      {Res : Type 0} (Explicit : Named → Type 0) (s : Client E.T Res) (t : TaskType)
      → (library_task E.I E.T t).Self
      → Type 0
  TaskNeeds Explicit s t task = BodyNeeds s Explicit ((library_task E.I E.T t).command_body task)

  -- What `to_static_literal` makes of a message.
  pub static-Needs :
      {Res : Type 0} (s : Client E.T Res) (message : List ℕ) (msg : LiteralOrLiteral8 E.T)
      → to_static_literal E message (ext_binary_supported s) ≡ ok msg
      → LiteralNeeds s msg
  static-Needs s message (literal8 octets) e = elim (Bool-cases (ext_binary_supported s)) [
    | inl supported ↦ supported
    | inr n ↦ absurd (ground (arith, n, e))
  ]
  static-Needs s message (literal octets) e = tt

  -- An initial response is in the command exactly if the task was told to send one.
  pub authenticate-Needs :
      {Res : Type 0} (Explicit : Named → Type 0) (s : Client E.T Res) (task : AuthenticateTask E.T)
      (line : List ℕ)
      → task.line ≡ some line
      → task.ir ≡ ext_sasl_ir_supported s
      → BodyNeeds s Explicit (command_body task)
  unfolding command_body
  authenticate-Needs Explicit s task line l i = elim (Bool-cases task.ir) [
    | inl y ↦ rw (y, l) (sym y ∙ i)
    | inr n ↦ rw n (sym n ∙ i)
  ]
