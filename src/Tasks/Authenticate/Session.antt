-- ===== src/Tasks/Authenticate/Session.antt =====
-- What an authentication sends: the static line of src/tasks/tasks/authenticate.rs goes out once.
use imap_client.Prelude.{
  ℕ, Bool, some, none, List, [], ◌∷◌, ◌++◌, map, ◌≡◌, ◌≢◌, refl, ap, ◌∙◌, Result, ok, if◌then◌else◌,
  All,
}
use imap_client.Prelude.Bytes.{split, split-append, split_whole}
use imap_client.Imap.{
  ImapTypes, CommandBody, AuthMechanism, AuthenticateData, CommandContinuationRequest,
}
use imap_client.Tasks.Authenticate.{
  AuthenticateTask, plain, command_body, cancel, process_continuation_request_authenticate,
}

module _ {T : ImapTypes} where
  -- The answers of a task to the continuation requests of one authentication.
  pub answers :
      AuthenticateTask T
      → List (CommandContinuationRequest T)
      → List (Result (AuthenticateData T) (CommandContinuationRequest T))
  answers self [] = []
  answers self (c ∷ cs) =
      let (answer, self') = process_continuation_request_authenticate self c in
      answer ∷ answers self' cs

  abbrev pub cancels :
      AuthMechanism T
      → List (CommandContinuationRequest T)
      → List (Result (AuthenticateData T) (CommandContinuationRequest T))
  cancels mechanism cs = map (λ _. ok (cancel mechanism)) cs

  -- What goes out in one authentication: the initial response of the command, then the answers.
  abbrev pub Sends : AuthenticateTask T → List ℕ → List (CommandContinuationRequest T) → Type 0
  Sends self line cs =
      (command_body self
        ≡ some (CommandBody.authenticate self.mechanism (if self.ir then some line else none)))
      × (answers self cs ≡ (
          if self.ir then cancels self.mechanism cs else elim cs [
            | [] ↦ []
            | _ ∷ rest ↦ ok (AuthenticateData.continue line) ∷ cancels self.mechanism rest
          ]))

-- The line of PLAIN splits at its NUL bytes into an empty identity, the login and the password,
-- when neither of these has a NUL byte.
pub plain_fields :
    (T : ImapTypes) (login passwd : List ℕ) (ir : Bool)
    → All (λ c. c ≢ 0) login
    → All (λ c. c ≢ 0) passwd
    → (line : List ℕ) × ((plain {T = T} login passwd ir).line ≡ some line)
      × (split 0 line ≡ [] ∷ login ∷ passwd ∷ [])
unfolding plain
plain_fields T login passwd ir hl hp = (
  0 ∷ (login ++ 0 ∷ passwd),
  refl,
  split-append 0 [] (login ++ 0 ∷ passwd) tt
      ∙ ap (◌∷◌ []) (split-append 0 login passwd hl ∙ ap (◌∷◌ login) (split_whole 0 passwd hp)),
)
