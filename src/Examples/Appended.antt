-- ===== src/Examples/Appended.antt =====
-- A message appended to a mailbox of a server without UIDPLUS: its number comes with CHECK, and
-- SEARCH finds 3 and 1.
use imap_client.Prelude.{some, [], ◌∷◌, ◌≡◌, refl, ◌↔◌, ok}
use imap_client.Client.{ext_uidplus_supported, ext_binary_supported}
use imap_client.Tasks.Library.{all_tasks}
use imap_client.Tokio.Api.{run, resolve}
use imap_client.Tokio.AppendedUid.{Located, appenduid_or_fallback-Located}
use imap_client.Tokio.Commands.{select, search, _search}
use imap_client.Tokio.Fallback.{appenduid_or_fallback}
use imap_client.Tokio.Login.{append}
use imap_client.Tokio.Messages.{post_append_noop, post_append_check}
use imap_client.Examples.Connections.{answering, client}

appended_after_check :
    appenduid_or_fallback answering (ok 2) [] (65 ∷ []) client
    ≡ some (ok (some 3), record client { stream = 5 })
unfolding appenduid_or_fallback run resolve all_tasks ext_uidplus_supported select append
    ext_binary_supported post_append_noop post_append_check search _search
appended_after_check = refl

appenduid_or_fallback-Located_example :
    (appenduid_or_fallback answering (ok 2) [] (65 ∷ []) client
      ≡ some (ok (some 3), record client { stream = 5 }))
    ↔ Located answering (ok 2) [] (65 ∷ []) client (some 3) (record client { stream = 5 })
unfolding ext_uidplus_supported
appenduid_or_fallback-Located_example =
    appenduid_or_fallback-Located answering (ok 2) [] (65 ∷ []) client
      (record client { stream = 5 }) (some 3) refl
