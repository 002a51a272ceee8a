-- ===== src/Imap/Types.antt =====
-- The types that the client carries and does not inspect, with the equalities that it calls.
use imap_client.Prelude.{ℕ}

pub record ImapTypes : Type 1 where
  pub Mailbox : Type 0
  pub ListMailbox : Type 0
  pub QuotedChar : Type 0
  pub FlagNameAttribute : Type 0
  pub FlagPerm : Type 0
  pub DateTime : Type 0
  pub Literal : Type 0
  pub SequenceSet : Type 0
  pub Macro : Type 0
  pub Charset : Type 0
  pub Thread : Type 0
  pub ThreadingAlgorithm : Type 0
  pub AString : Type 0
  pub IString : Type 0
  pub NString : Type 0
  pub Text : Type 0
  pub GreetingKind : Type 0
  pub Tag : Type 0
  pub CommandHandle : Type 0
  pub NextError : Type 0
  pub Other : Type 0
  -- `derive(PartialEq, Eq)`
  pub tag_discrete : Discrete Tag
  pub handle_discrete : Discrete CommandHandle
  pub date_time_discrete : Discrete DateTime
  pub n_string_discrete : Discrete NString
  pub other_discrete : Discrete Other
  -- `Charset::try_from("UTF-8").unwrap()`
  pub utf_8 : Charset
  -- `SequenceSet::from(SeqOrUid::from(id))`
  pub sequence_set_from : ℕ → SequenceSet
