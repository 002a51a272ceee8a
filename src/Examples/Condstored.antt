-- ===== src/Examples/Condstored.antt =====
-- The program of examples/condstore.rs without a cached number, at a mailbox whose HIGHESTMODSEQ is
-- 500.
use imap_client.Prelude.{String, false, none, some, List, [], ◌∷◌, ok}
use imap_client.Imap.{SearchKey}
use imap_client.Tasks.Library.{TaskType}
use imap_client.Tokio.Commands.{select}
use imap_client.Tokio.Connect.{Network}
use imap_client.Programs.{Toolkit, Arguments}
use imap_client.Programs.Condstore.{Line}
use imap_client.Examples.Connections.{answering, answer}
use imap_client.Examples.Channels.{working}

abbrev tools : Toolkit answering
tools = record {
  parse_u16 = λ text. some 993;
  parse_u64 = λ text. none;
  mailbox_try_from = λ text. ok 2;
  sequence_set_try_from_text = λ text. ok 5;
  fast = 0;
  mod_sequence = λ n. SearchKey.all;
  is_q_resync = λ c. false;
  message = 65 ∷ [];
}

abbrev network : Network answering
network = record working { platform_verifier = ok [] }

abbrev texts : List String
texts = "condstore" ∷ "mail" ∷ "993" ∷ "user" ∷ "secret" ∷ []

abbrev args : Arguments
args = record { host = "mail"; port = 993; username = "user"; password = "secret"; others = [] }

abbrev printed : List (Line answering)
printed =
    Line.not_supported
    ∷ Line.select_data_is (answer TaskType.select)
    ∷ Line.active 500
    ∷ Line.using_highest 200 300
    ∷ Line.testing_fetch 300
    ∷ Line.changed_messages 2
    ∷ Line.testing_search 300
    ∷ Line.messages_found 2
    ∷ Line.q_resync_not_supported
    ∷ []
