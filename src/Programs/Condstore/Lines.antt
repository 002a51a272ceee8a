-- ===== src/Programs/Condstore/Lines.antt =====
-- What the lines of examples/condstore.rs say of the number that it tests.
use imap_client.Prelude.{ℕ, ◌<◌, ◌-◌, Option, none, some}
use imap_client.Tasks.Select
use imap_client.Tokio.Api.{Environment}
use imap_client.Programs.{Toolkit}
use imap_client.Programs.Condstore.{Line}
use imap_client.Programs.Keeps.{Keeps}

module _ (E : Environment) (tools : Toolkit E) (cached_modseq : Option ℕ) where
  -- The number that is tested: the cached one, or HIGHESTMODSEQ less 200.
  abbrev pub tested : ℕ → ℕ
  tested modseq = elim cached_modseq [ none ↦ modseq - 200 | some cached ↦ cached ]

  -- The number to test for a HIGHESTMODSEQ is not 0.
  abbrev pub Testable : Option ℕ → Type 0
  Testable none = Unit {0}
  Testable (some modseq) = 0 < tested modseq

  -- A line that shows a HIGHESTMODSEQ shows one for which the number to test is not 0, and the tests
  -- are of such numbers.
  abbrev pub Positive : Line E → Type 0
  Positive (Line.select_data_is data') = Testable data'.highest_modseq
  Positive (Line.active modseq) = 0 < tested modseq
  Positive (Line.testing_fetch n) = 0 < n
  Positive (Line.testing_search n) = 0 < n
  Positive _ = Unit {0}
