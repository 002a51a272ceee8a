-- ===== src/Tasks/Authenticate.antt =====
-- src/tasks/tasks/authenticate.rs. What the program only logs is left out.
pub mod Session
use imap_client.Prelude.{
  ℕ, Bool, true, false, Option, some, none, List, [], ◌∷◌, ◌++◌, Result, ok, if◌then◌else◌,
}
use imap_client.Prelude.Bytes.{bytes, format_number}
use imap_client.Imap.{
  ImapTypes, CommandBody, Data, StatusBody, Capability, Vec1, AuthMechanism, AuthenticateData,
  CommandContinuationRequest,
}
use imap_client.Task.{Task, process_default}
use imap_client.Tasks.{TaskError, by_kind}
use imap_client.Tasks.CapabilityQuery.{code_capabilities}

pub record AuthenticateTask (T : ImapTypes) : Type 0 where
  pub mechanism : AuthMechanism T
  pub line : Option (List ℕ)
  pub ir : Bool
  pub output : Option (Vec1 (Capability T))

module _ {T : ImapTypes} where
  unfoldable pub plain : (login passwd : List ℕ) (ir : Bool) → AuthenticateTask T
  plain login passwd ir = record {
    mechanism = AuthMechanism.plain;
    line = some (0 ∷ (login ++ 0 ∷ passwd));
    ir = ir;
    output = none;
  }

  unfoldable pub oauthbearer :
      (user host : List ℕ) (port : ℕ) (token : List ℕ) (ir : Bool) → AuthenticateTask T
  oauthbearer user host port token ir = record {
    mechanism = AuthMechanism.o_auth_bearer;
    line = some (
        bytes "n,a="
        ++ (user
            ++ (bytes ","
                ++ (1
                    ∷ (bytes "host="
                        ++ (host
                            ++ (1
                                ∷ (bytes "port="
                                    ++ (format_number port
                                        ++ (1
                                            ∷ (bytes "auth=Bearer "
                                                ++ (token ++ 1 ∷ 1 ∷ []))))))))))));
    ir = ir;
    output = none;
  }

  unfoldable pub xoauth2 : (user token : List ℕ) (ir : Bool) → AuthenticateTask T
  xoauth2 user token ir = record {
    mechanism = AuthMechanism.x_o_auth2;
    line = some (bytes "user=" ++ (user ++ (1 ∷ (bytes "auth=Bearer " ++ (token ++ 1 ∷ 1 ∷ [])))));
    ir = ir;
    output = none;
  }

  -- `none` where `line.clone().unwrap()` panics.
  unfoldable pub command_body : AuthenticateTask T → Option (CommandBody T)
  command_body self = elim self.ir [
    | true ↦ elim self.line [
      | some line ↦ some (CommandBody.authenticate self.mechanism (some line))
      | none ↦ none
    ]
    | false ↦ some (CommandBody.authenticate self.mechanism none)
  ]

  pub process_data : AuthenticateTask T → Data T → Option (Data T) × AuthenticateTask T
  process_data self (Data.capability capabilities) =
      (none, record self { output = some capabilities })
  process_data self d = (some d, self)

  -- The closure `cancel`.
  pub cancel : AuthMechanism T → AuthenticateData T
  cancel AuthMechanism.x_o_auth2 = AuthenticateData.continue []
  cancel _ = AuthenticateData.cancel

  pub process_continuation_request_authenticate :
      AuthenticateTask T
      → CommandContinuationRequest T
      → Result (AuthenticateData T) (CommandContinuationRequest T) × AuthenticateTask T
  process_continuation_request_authenticate self continuation =
      if self.ir then (ok (cancel self.mechanism), self) else elim self.line [
        | some line ↦ (ok (AuthenticateData.continue line), record self { line = none })
        | none ↦ (ok (cancel self.mechanism), self)
      ]

  pub process_tagged :
      AuthenticateTask T → StatusBody T → Result (Option (Vec1 (Capability T))) (TaskError T)
  process_tagged self body = by_kind body (
      ok (elim (code_capabilities body.code) [
        | some capabilities ↦ some capabilities
        | none ↦ self.output
      ]))

unfoldable pub task : (T : ImapTypes) → Task T (Result (Option (Vec1 (Capability T))) (TaskError T))
unfolding command_body process_data process_continuation_request_authenticate process_tagged
task T = record {
  Self = AuthenticateTask T;
  command_body = command_body;
  process_data = process_data;
  process_untagged = process_default;
  process_continuation_request = process_default;
  process_continuation_request_authenticate = process_continuation_request_authenticate;
  process_bye = process_default;
  process_tagged = process_tagged;
}
