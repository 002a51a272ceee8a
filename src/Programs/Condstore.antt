-- ===== src/Programs/Condstore.antt =====
-- examples/condstore.rs
pub mod Lines
use imap_client.Prelude.{
  ℕ, ◌-◌, String, Bool, Option, none, some, List, [], ◌∷◌, any, length, Result, ok, err,
  if◌then◌else◌, ◌≤◌, ◌≡◌, refl, arith,
}
use imap_client.Prelude.Bytes.{bytes}
use imap_client.Imap.{FetchModifier, macro}
use imap_client.Client.{capabilities_iter, ext_condstore_supported}
use imap_client.Tasks.{TaskError}
use imap_client.Tasks.Library.{TaskType, all_tasks}
use imap_client.Tasks.Fetch
use imap_client.Tasks.Select
use imap_client.Tokio.Api.{Environment, TokioClient, ClientError, resolve}
use imap_client.Tokio.Commands.{select, search, enable_condstore_if_supported}
use imap_client.Tokio.Connect.{Network}
use imap_client.Tokio.Fetch.{fetch_with_modifiers}
use imap_client.Tokio.Login.{authenticate_plain}
use imap_client.Tokio.Messages.{Items}
use imap_client.Programs.{
  Toolkit, Program, Arguments, ◌then◌, println, awaits, unwrap, unwraps, nonzero, arguments,
  on_client,
}

pub data Line (E : Environment) : Type 0 where
  enabled_is : Bool → Line E
  not_supported : Line E
  select_data_is : Select.SelectDataUnvalidated E.T → Line E
  active : ℕ → Line E
  using_cached : ℕ → Line E
  using_highest : (offset calculated : ℕ) → Line E
  testing_fetch testing_search : ℕ → Line E
  changed_messages messages_found : ℕ → Line E
  testing_vanished vanished_note : Line E
  vanished : ℕ → Line E
  vanished_task_error : TaskError E.T → Line E
  vanished_error : ClientError E → Line E
  q_resync_not_supported : Line E
  not_active : Line E

module _ (E : Environment) (tools : Toolkit E) where
  -- The second argument of `match client.resolve(vanished_task).await`.
  abbrev pub report_vanished :
      Result (Result (Items E) (TaskError E.T)) (ClientError E) → Program E (Line E) (Unit {0})
  report_vanished (ok (ok messages)) =
      println (vanished (length messages)) then λ _. println vanished_note
  report_vanished (ok (err e)) = println (vanished_task_error e)
  report_vanished (err e) = println (vanished_error e)

  -- UID FETCH VANISHED.
  unfoldable pub test_vanished : ℕ → Program E (Line E) (Unit {0})
  unfolding all_tasks
  test_vanished test_modseq = println testing_vanished then λ _.
      unwrap (tools.sequence_set_try_from_text "1:*") then λ set.
      awaits (
        resolve TaskType.fetch (
          Fetch.with_vanished
            (Fetch.with_changed_since (Fetch.new set (macro tools.fast)) test_modseq)))
      then report_vanished

  -- FETCH CHANGEDSINCE.
  abbrev pub test_fetch : ℕ → Program E (Line E) (Unit {0})
  test_fetch test_modseq = println (testing_fetch test_modseq) then λ _.
      nonzero test_modseq then λ modseq. unwrap (tools.sequence_set_try_from_text "1:*") then λ set.
      unwraps
        (fetch_with_modifiers E set (macro tools.fast) (FetchModifier.changed_since modseq ∷ []))
      then λ messages. println (changed_messages (length messages))

  -- SEARCH MODSEQ.
  abbrev pub test_search : ℕ → Program E (Line E) (Unit {0})
  test_search test_modseq = println (testing_search test_modseq) then λ _.
      unwraps (search E (tools.mod_sequence test_modseq ∷ [])) then λ results.
      println (messages_found (length results))

  abbrev pub tests : ℕ → Program E (Line E) (Unit {0})
  tests test_modseq = test_fetch test_modseq then λ _. test_search test_modseq then λ _ client.
      if any tools.is_q_resync (capabilities_iter client.state)
      then test_vanished test_modseq client
      else println q_resync_not_supported client

  abbrev pub test_modseq : Option ℕ → ℕ → Program E (Line E) ℕ
  test_modseq (some cached) modseq = println (using_cached cached) then λ _. nonzero cached
  test_modseq none modseq =
      let calculated = modseq - 200 in
      println (using_highest 200 calculated) then λ _. nonzero calculated

  -- The `match` on the HIGHESTMODSEQ of the mailbox.
  abbrev pub probe : Option ℕ → Option ℕ → Program E (Line E) (Unit {0})
  probe cached_modseq (some modseq) =
      println (active modseq) then λ _. test_modseq cached_modseq modseq then tests
  probe cached_modseq none = println not_active

  abbrev pub enable : Program E (Line E) (Unit {0})
  enable client =
      if ext_condstore_supported client.state
      then (unwraps (enable_condstore_if_supported E) then λ enabled. println (enabled_is enabled))
          client
      else println not_supported client

  abbrev pub cached_of : List String → Option ℕ
  cached_of [] = none
  cached_of (s ∷ _) = tools.parse_u64 s

  abbrev pub body : Arguments → Program E (Line E) (Unit {0})
  body args = unwraps (authenticate_plain E (bytes args.username) (bytes args.password)) then λ _.
      enable then λ _. unwraps (select E (tools.mailbox_try_from "inbox")) then λ data'.
      println (select_data_is data') then λ _. probe (cached_of args.others) data'.highest_modseq

  unfoldable pub main : Network E → List String → Option (List (Line E))
  main W args = on_client tools W (arguments tools args) body
