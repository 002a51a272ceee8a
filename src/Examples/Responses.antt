-- ===== src/Examples/Responses.antt =====
-- The theorems on the tasks at concrete responses.
use imap_client.Prelude.{
  ℕ, true, false, none, some, List, [], ◌∷◌, ◌≡◌, ◌≢◌, refl, ok, err, inl, inr, arith,
}
use imap_client.Prelude.Bytes.{split}
use imap_client.Imap.{
  StoreType, Data, StatusKind, CommandContinuationRequest, MessageDataItem, LiteralOrLiteral8,
  MacroOrMessageDataItemNames, Bye, Code, AuthMechanism,
}
use imap_client.Task.Feed.{feed, unwanted, wanted, last_or}
use imap_client.Tasks.Append
use imap_client.Tasks.Authenticate
use imap_client.Tasks.Authenticate.Session.{plain_fields}
use imap_client.Tasks.Expunge
use imap_client.Tasks.Fetch
use imap_client.Tasks.Fetch.Collected.{as_fetch, as_fetch_of, collected, fetch_transcript}
use imap_client.Tasks.FetchFirst
use imap_client.Tasks.Store
use mathlib.Core.Option
use imap_client.Prelude.HashMap.{HashMap, get}
use imap_client.Tasks.Library.{
  TaskType, library_task, failure, process_tagged_fails, library_declines, KeepsOrDeclines,
}
use imap_client.Tasks.Select
use imap_client.Tasks.Select.Session.{Untagged, process, select_transcript}
use imap_client.Tasks.ThreadMessages
use imap_client.Examples.{T₀, in_order, done, refused}

refused-no : refused.kind ≢ StatusKind.ok
refused-no e = cc

abbrev mixed : List (Data T₀)
mixed =
    Data.exists 4
    ∷ Data.list [] (some 47) 2
    ∷ Data.sort (3 ∷ 1 ∷ []) none
    ∷ Data.thread (5 ∷ [])
    ∷ Data.fetch 1 (MessageDataItem.uid 10 ∷ [])
    ∷ Data.fetch 2 (MessageDataItem.uid 20 ∷ [])
    ∷ Data.expunge 2
    ∷ Data.list [] none 6
    ∷ Data.exists 3
    ∷ []

abbrev expunging : (library_task in_order T₀ TaskType.expunge).Self
unfolding Expunge.task
expunging = Expunge.new

process_tagged_fails_example :
    (library_task in_order T₀ TaskType.expunge).process_tagged expunging refused
    ≡ err (failure refused)
process_tagged_fails_example =
    process_tagged_fails in_order T₀ TaskType.expunge expunging refused refused-no

abbrev message : LiteralOrLiteral8 T₀
message = LiteralOrLiteral8.literal 1

abbrev names : MacroOrMessageDataItemNames T₀
names = MacroOrMessageDataItemNames.macro 0

-- Two EXISTS, and a UIDNEXT in a status that is not OK.
abbrev two_exists : List (Untagged T₀)
two_exists =
    inl (Data.exists 4)
    ∷ inr (record refused { code = some (Code.uid_next 9) })
    ∷ inr (record done { code = some (Code.uid_next 7) })
    ∷ inl (Data.exists 5)
    ∷ []

abbrev untouched : Select.SelectDataUnvalidated T₀
untouched = record {
  flags = none;
  exists = none;
  recent = none;
  unseen = none;
  permanent_flags = none;
  uid_next = none;
  uid_validity = none;
  highest_modseq = none;
}

abbrev selecting : Select.SelectTask T₀
selecting = record { mailbox = 0; read_only = false; condstore_enabled = false; output = untouched }

abbrev goodbye : Bye T₀
goodbye = record { code = none; text = 0 }

abbrev more : CommandContinuationRequest T₀
more = CommandContinuationRequest.basic 0

library_declines_example :
    KeepsOrDeclines
      (library_task in_order T₀ TaskType.expunge).process_data
      expunging
      (Data.expunge 3)
    × KeepsOrDeclines (library_task in_order T₀ TaskType.expunge).process_untagged expunging done
    × KeepsOrDeclines
        (library_task in_order T₀ TaskType.expunge).process_continuation_request
        expunging
        more
    × KeepsOrDeclines (library_task in_order T₀ TaskType.expunge).process_bye expunging goodbye
library_declines_example =
    library_declines in_order T₀ TaskType.expunge expunging (Data.expunge 3) done more goodbye

abbrev plain_task : Authenticate.AuthenticateTask T₀
plain_task = record {
  mechanism = AuthMechanism.plain;
  line = some (0 ∷ 97 ∷ 98 ∷ 0 ∷ 99 ∷ []);
  ir = false;
  output = none;
}

plain_fields_example :
    (line : List ℕ) × ((Authenticate.plain {T = T₀} (97 ∷ 98 ∷ []) (99 ∷ []) true).line ≡ some line)
    × (split 0 line ≡ [] ∷ (97 ∷ 98 ∷ []) ∷ (99 ∷ []) ∷ [])
plain_fields_example =
    plain_fields T₀ (97 ∷ 98 ∷ []) (99 ∷ []) true
      (λ e. omega (arith, e), (λ e. omega (arith, e), tt)) (λ e. omega (arith, e), tt)

append_transcript_example :
    ((feed Append.process_data (Append.new {T = T₀} 0 message) mixed).0
      ≡ unwanted Append.as_exists mixed)
    × (Append.process_tagged (feed Append.process_data (Append.new {T = T₀} 0 message) mixed).1 done
        ≡ ok (some 3))
append_transcript_example = Append.append_transcript 0 message mixed done refl

thread_transcript_example :
    ((feed ThreadMessages.process_data (ThreadMessages.new {T = T₀} 0 []) mixed).0
      ≡ unwanted ThreadMessages.as_thread mixed)
    × (ThreadMessages.process_tagged
          (feed ThreadMessages.process_data (ThreadMessages.new {T = T₀} 0 []) mixed).1
          done
        ≡ ok (5 ∷ []))
thread_transcript_example = ThreadMessages.thread_transcript 0 [] mixed done refl

-- The items of message 2 for a fetch of message 1.
fetch_first_transcript_example :
    ((feed FetchFirst.process_data (FetchFirst.new {T = T₀} 1 names) mixed).0
      ≡ unwanted FetchFirst.as_fetch mixed)
    × (FetchFirst.process_tagged
          (feed FetchFirst.process_data (FetchFirst.new {T = T₀} 1 names) mixed).1
          done
        ≡ ok (MessageDataItem.uid 20 ∷ []))
fetch_first_transcript_example = FetchFirst.fetch_first_transcript 1 names mixed done refl

select_transcript_example :
    Select.process_tagged (feed process selecting two_exists).1 done
    ≡ ok (record untouched { exists = some 5; uid_next = some 7 })
select_transcript_example = select_transcript selecting two_exists done refl

store_transcript_example :
    let fed = feed Store.process_data (Store.new {T = T₀} 1 StoreType.add []) mixed in
    (fed.0 ≡ unwanted Store.as_fetch mixed)
    × ((output : HashMap (List (MessageDataItem T₀))) × (Store.process_tagged fed.1 done
          ≡ ok output)
        × ((seq : ℕ) → get seq output ≡ last_or (wanted (Store.as_fetch_of seq) mixed) none))
store_transcript_example = Store.store_transcript 1 StoreType.add [] mixed done refl

fetch_transcript_example :
    let fed = feed Fetch.process_data (Fetch.new {T = T₀} 1 names) mixed in
    (fed.0 ≡ unwanted as_fetch mixed)
    × ((output : HashMap (List (MessageDataItem T₀))) × (Fetch.process_tagged in_order fed.1 done
          ≡ ok output)
        × ((seq : ℕ)
            → get seq output
              ≡ Option.map (λ items. items) (collected (wanted (as_fetch_of seq) mixed))))
fetch_transcript_example = fetch_transcript in_order 1 names mixed done refl
