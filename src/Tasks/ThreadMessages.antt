-- ===== src/Tasks/ThreadMessages.antt =====
-- src/tasks/tasks/thread.rs
use imap_client.Prelude.{
  Bool, true, Option, some, none, List, [], ◌∷◌, ◌≡◌, refl, map, ap, ◌∙◌, Result, ok, err,
}
use imap_client.Imap.{ImapTypes, CommandBody, Data, StatusBody, StatusKind, SearchKey, Vec1}
use imap_client.Task.{Task, process_default, process_authenticate_default}
use imap_client.Task.Feed.{Takes, feed, unwanted, wanted, feed_last, last_or, last_or-map}
use imap_client.Tasks.{TaskError, by_kind, by_kind-ok, missing_data}

pub record ThreadTask (T : ImapTypes) : Type 0 where
  pub algorithm : T.ThreadingAlgorithm
  pub charset : T.Charset
  pub search_criteria : Vec1 (SearchKey T)
  pub uid : Bool
  pub output : Option (List T.Thread)

module _ {T : ImapTypes} where
  pub new : T.ThreadingAlgorithm → Vec1 (SearchKey T) → ThreadTask T
  new algorithm search_criteria = record {
    algorithm = algorithm;
    charset = T.utf_8;
    search_criteria = search_criteria;
    uid = true;
    output = none;
  }

  pub set_charset : ThreadTask T → T.Charset → ThreadTask T
  set_charset self charset = record self { charset = charset }

  pub with_charset : ThreadTask T → T.Charset → ThreadTask T
  unfolding set_charset
  with_charset self charset = set_charset self charset

  pub set_uid : ThreadTask T → Bool → ThreadTask T
  set_uid self uid = record self { uid = uid }

  pub with_uid : ThreadTask T → Bool → ThreadTask T
  unfolding set_uid
  with_uid self uid = set_uid self uid

  pub command_body : ThreadTask T → Option (CommandBody T)
  command_body self =
      some (CommandBody.thread self.algorithm self.charset self.search_criteria self.uid)

  pub process_data : ThreadTask T → Data T → Option (Data T) × ThreadTask T
  process_data self (Data.thread threads) = (none, record self { output = some threads })
  process_data self d = (some d, self)

  abbrev output_or_missing : Option (List T.Thread) → Result (List T.Thread) (TaskError T)
  output_or_missing (some output) = ok output
  output_or_missing none = err (missing_data "SORT")

  pub process_tagged : ThreadTask T → StatusBody T → Result (List T.Thread) (TaskError T)
  process_tagged self body = by_kind body (output_or_missing self.output)

  -- The payload of the response that the task waits for.
  abbrev pub as_thread : Data T → Option (List T.Thread)
  as_thread (Data.thread threads) = some threads
  as_thread _ = none

  replace : ThreadTask T → List T.Thread → ThreadTask T
  replace self threads = record self { output = some threads }

  takes : (self : ThreadTask T) (d : Data T) → Takes process_data as_thread replace self d
  unfolding process_data replace
  takes self (Data.thread threads) = refl
  takes self _ = refl

  -- The output of the task, from the payloads that arrived.
  abbrev pub expected : List (List T.Thread) → Result (List T.Thread) (TaskError T)
  expected [] = err (missing_data "SORT")
  expected (payload ∷ payloads) = ok (last_or payloads payload)

  output-expected :
      (payloads : List (List T.Thread))
      → output_or_missing (last_or (map some payloads) none) ≡ expected payloads
  output-expected [] = refl
  output-expected (x ∷ xs) = ap output_or_missing (last_or-map some xs x)

  -- A THREAD task hands back all responses but the THREAD responses, in their order. At an OK
  -- completion its output is the threads of the last THREAD response; without any it fails, and
  -- names "SORT" as the missing data.
  pub thread_transcript :
      (algorithm : T.ThreadingAlgorithm) (search_criteria : Vec1 (SearchKey T)) (ds : List (Data T))
      (body : StatusBody T)
      → body.kind ≡ StatusKind.ok
      → let after = feed process_data (new algorithm search_criteria) ds in
        (after.0 ≡ unwanted as_thread ds)
        × (process_tagged after.1 body ≡ expected (wanted as_thread ds))
  unfolding new process_tagged replace
  thread_transcript algorithm search_criteria ds body done =
      let (back, output) =
        feed_last process_data as_thread replace takes (λ t. t.output) some (λ t x. refl)
          (new algorithm search_criteria) ds in
      (
        back,
        by_kind-ok body _ done
            ∙ ap output_or_missing output
            ∙ output-expected (wanted as_thread ds),
      )

unfoldable pub task : (T : ImapTypes) → Task T (Result (List T.Thread) (TaskError T))
unfolding command_body process_data process_tagged
task T = record {
  Self = ThreadTask T;
  command_body = command_body;
  process_data = process_data;
  process_untagged = process_default;
  process_continuation_request = process_default;
  process_continuation_request_authenticate = process_authenticate_default;
  process_bye = process_default;
  process_tagged = process_tagged;
}
