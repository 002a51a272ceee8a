-- ===== src/Tasks/Logout.antt =====
-- src/tasks/tasks/logout.rs
use imap_client.Prelude.{
  Bool, false, true, Option, some, none, Result, ok, err, if◌then◌else◌, ◌≡◌, refl, ◌∙◌, List, [],
  ◌∷◌,
}
use imap_client.Imap.{ImapTypes, CommandBody, StatusBody, StatusKind, Bye}
use imap_client.Task.{Task, process_default, process_authenticate_default}
use imap_client.Task.Feed.{feed}
use imap_client.Tasks.{TaskError, by_kind, by_kind-ok, missing_data}

pub record LogoutTask (T : ImapTypes) : Type 0 where
  pub got_bye : Bool

module _ {T : ImapTypes} where
  pub new : LogoutTask T
  new = record { got_bye = false }

  pub command_body : LogoutTask T → Option (CommandBody T)
  command_body self = some CommandBody.logout

  pub process_bye : LogoutTask T → Bye T → Option (Bye T) × LogoutTask T
  process_bye self bye = (none, record self { got_bye = true })

  pub process_tagged : LogoutTask T → StatusBody T → Result (Unit {0}) (TaskError T)
  process_tagged self body =
      by_kind body (if self.got_bye then ok tt else err (missing_data "LOGOUT: BYE"))

  keeps-got_bye :
      (self : LogoutTask T) (byes : List (Bye T))
      → self.got_bye ≡ true
      → (feed process_bye self byes).1.got_bye ≡ true
  unfolding feed process_bye
  keeps-got_bye self [] h = h
  keeps-got_bye self (bye ∷ byes) h = keeps-got_bye (record { got_bye = true }) byes refl

  keeps-all : (self : LogoutTask T) (byes : List (Bye T)) → (feed process_bye self byes).0 ≡ []
  unfolding feed process_bye
  keeps-all self [] = refl
  keeps-all self (bye ∷ byes) = keeps-all (record { got_bye = true }) byes

  -- What a logout makes of the BYEs that it was sent.
  abbrev pub farewell : List (Bye T) → Result (Unit {0}) (TaskError T)
  farewell [] = err (missing_data "LOGOUT: BYE")
  farewell (bye ∷ byes) = ok tt

  -- A LOGOUT task keeps every BYE. An OK completion succeeds if there was a BYE before it, and
  -- else fails with the missing data "LOGOUT: BYE".
  logout_transcript :
      (byes : List (Bye T)) (body : StatusBody T)
      → body.kind ≡ StatusKind.ok
      → ((feed process_bye new byes).0 ≡ [])
        × (process_tagged (feed process_bye new byes).1 body ≡ farewell byes)
  unfolding new process_tagged feed process_bye
  logout_transcript [] body done = (refl, by_kind-ok body _ done)
  logout_transcript (bye ∷ byes) body done = (
    keeps-all _ byes,
    by_kind-ok body _ done ∙ rw (keeps-got_bye (record { got_bye = true }) byes refl) refl,
  )

unfoldable pub task : (T : ImapTypes) → Task T (Result (Unit {0}) (TaskError T))
unfolding command_body process_bye process_tagged
task T = record {
  Self = LogoutTask T;
  command_body = command_body;
  process_data = process_default;
  process_untagged = process_default;
  process_continuation_request = process_default;
  process_continuation_request_authenticate = process_authenticate_default;
  process_bye = process_bye;
  process_tagged = process_tagged;
}
