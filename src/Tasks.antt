-- ===== src/Tasks.antt =====
-- src/tasks/tasks/mod.rs. The modules below are the tasks, one for each type that implements `Task`.
pub mod Append
pub mod AppendUid
pub mod Authenticate
pub mod CapabilityQuery
pub mod Check
pub mod Copy
pub mod Create
pub mod Delete
pub mod Enable
pub mod Expunge
pub mod Fetch
pub mod FetchFirst
pub mod ListMailboxes
pub mod Login
pub mod Library
pub mod Logout
pub mod Move
pub mod NoOp
pub mod PostAppendCheck
pub mod PostAppendNoOp
pub mod Search
pub mod Select
pub mod ServerId
pub mod SilentStore
pub mod Sort
pub mod Store
pub mod ThreadMessages
use imap_client.Prelude.{String, Result, err, ◌≡◌, arith}
use imap_client.Imap.{ImapTypes, StatusBody, StatusKind}

pub data TaskError (T : ImapTypes) : Type 0 where
  unexpected_bad_response : StatusBody T → TaskError T
  unexpected_no_response : StatusBody T → TaskError T
  missing_data : String → TaskError T

-- The `match status_body.kind` of every `process_tagged`, given its branch for `Ok`.
abbrev pub by_kind :
    {T : ImapTypes} {A : Type 0} → StatusBody T → Result A (TaskError T) → Result A (TaskError T)
by_kind body done = elim body.kind [
  | StatusKind.ok ↦ done
  | StatusKind.no ↦ err (unexpected_no_response body)
  | StatusKind.bad ↦ err (unexpected_bad_response body)
]

module _ {T : ImapTypes} {A : Type 0} (body : StatusBody T) (done : Result A (TaskError T)) where
  pub by_kind-ok : body.kind ≡ StatusKind.ok → by_kind body done ≡ done
  by_kind-ok h = ground arith
