-- ===== src/Tasks/Login.antt =====
-- src/tasks/tasks/login.rs
use imap_client.Prelude.{
  Option, some, none, Result, ok, ◌≡◌, refl, ap, ◌∙◌, List, inl, inr, Option-cases,
}
use imap_client.Imap.{ImapTypes, CommandBody, Data, StatusBody, StatusKind, Capability, Vec1}
use imap_client.Task.{Task, process_default, process_authenticate_default}
use imap_client.Tasks.CapabilityQuery.{code_capabilities}
use imap_client.Task.Feed.{feed, unwanted, wanted, last_or, feed_back, feed_field}
use imap_client.Tasks.{TaskError, by_kind, by_kind-ok}

pub record LoginTask (T : ImapTypes) : Type 0 where
  pub username : T.AString
  pub password : T.AString
  pub output : Option (Vec1 (Capability T))

module _ {T : ImapTypes} where
  pub new : T.AString → T.AString → LoginTask T
  new username password = record { username = username; password = password; output = none }

  pub command_body : LoginTask T → Option (CommandBody T)
  command_body self = some (CommandBody.login self.username self.password)

  pub process_data : LoginTask T → Data T → Option (Data T) × LoginTask T
  process_data self (Data.capability capabilities) =
      (none, record self { output = some capabilities })
  process_data self d = (some d, self)

  pub process_tagged :
      LoginTask T → StatusBody T → Result (Option (Vec1 (Capability T))) (TaskError T)
  process_tagged self body = by_kind body (
      ok (elim (code_capabilities body.code) [
        | some capabilities ↦ some capabilities
        | none ↦ self.output
      ]))

  -- The capabilities of a CAPABILITY response, as the task stores them.
  abbrev pub as_capability : Data T → Option (Option (Vec1 (Capability T)))
  as_capability (Data.capability capabilities) = some (some capabilities)
  as_capability _ = none

  back :
      (self : LoginTask T) (d : Data T)
      → (process_data self d).0 ≡ elim (as_capability d) [ none ↦ some d | some x ↦ none ]
  unfolding process_data
  back self (Data.capability capabilities) = refl
  back self _ = refl

  output :
      (self : LoginTask T) (d : Data T)
      → (process_data self d).1.output ≡ elim (as_capability d) [ none ↦ self.output | some x ↦ x ]
  unfolding process_data
  output self (Data.capability capabilities) = refl
  output self _ = refl

  -- The capabilities of the code of the completion, else those of the last CAPABILITY response.
  abbrev pub newest : Option (Vec1 (Capability T)) → List (Data T) → Option (Vec1 (Capability T))
  newest (some capabilities) ds = some capabilities
  newest none ds = last_or (wanted as_capability ds) none

  -- A LOGIN task hands back all responses but CAPABILITY, in their order. At an OK completion its
  -- output is the capabilities of the code of that completion if it has them, else those of the
  -- last CAPABILITY response, or none if there was none.
  login_transcript :
      (username password : T.AString) (ds : List (Data T)) (body : StatusBody T)
      → body.kind ≡ StatusKind.ok
      → ((feed process_data (new username password) ds).0 ≡ unwanted as_capability ds)
        × (process_tagged (feed process_data (new username password) ds).1 body
            ≡ ok (newest (code_capabilities body.code) ds))
  unfolding new process_tagged
  login_transcript username password ds body done = (
    feed_back process_data as_capability back _ ds,
    by_kind-ok body _ done
        ∙ ap ok (elim (Option-cases (code_capabilities body.code)) [
          | inl e ↦
              rw (e, newest)
                (feed_field process_data (λ t. t.output) as_capability output
                  (new username password) ds)
          | inr (c, e) ↦ rw (e, newest) refl
        ]),
  )

unfoldable pub task : (T : ImapTypes) → Task T (Result (Option (Vec1 (Capability T))) (TaskError T))
unfolding command_body process_data process_tagged
task T = record {
  Self = LoginTask T;
  command_body = command_body;
  process_data = process_data;
  process_untagged = process_default;
  process_continuation_request = process_default;
  process_continuation_request_authenticate = process_authenticate_default;
  process_bye = process_default;
  process_tagged = process_tagged;
}
