-- ===== src/Imap/Commands.antt =====
-- `imap_types::command` and what commands are made of: what the client sends.
use imap_client.Prelude.{ℕ, List, Option, Bool}
use imap_client.Imap.Types.{ImapTypes}
use imap_client.Imap.Responses.{Vec1, AuthMechanism, CapabilityEnable, Flag}

pub data SelectParameter : Type 0 where
  cond_store : SelectParameter

pub data StoreResponse : Type 0 where
  answer silent : StoreResponse

pub data SortKey : Type 0 where
  arrival cc date from size subject to display_from display_to : SortKey

pub record SortCriterion : Type 0 where
  pub reverse : Bool
  pub key : SortKey

module _ (T : ImapTypes) where
  open T use {
    Mailbox, ListMailbox, DateTime, Literal, SequenceSet, Macro, Charset, ThreadingAlgorithm,
    AString, IString, NString, Tag, Other,
  }

  pub data LiteralOrLiteral8 : Type 0 where
    -- `Literal8 { data, mode: LiteralMode::Sync }`
    literal8 : List ℕ → LiteralOrLiteral8
    literal : Literal → LiteralOrLiteral8

  pub data FetchModifier : Type 0 where
    changed_since : ℕ → FetchModifier
    vanished : FetchModifier
    other : Other → FetchModifier

  pub data MessageDataItemName : Type 0 where
    uid internal_date envelope rfc822_size : MessageDataItemName
    other : Other → MessageDataItemName

  pub data MacroOrMessageDataItemNames : Type 0 where
    macro : Macro → MacroOrMessageDataItemNames
    message_data_item_names : List MessageDataItemName → MacroOrMessageDataItemNames

  pub data SearchKey : Type 0 where
    all : SearchKey
    sequence_set : SequenceSet → SearchKey
    other : Other → SearchKey

  pub data StoreType : Type 0 where
    add : StoreType
    other : Other → StoreType

  pub data CommandBody : Type 0 where
    capability check noop logout expunge idle : CommandBody
    append :
        (mailbox : Mailbox) (flags : List (Flag T)) (date : Option DateTime)
        (message : LiteralOrLiteral8)
        → CommandBody
    authenticate : (mechanism : AuthMechanism T) (initial_response : Option (List ℕ)) → CommandBody
    copy move : (sequence_set : SequenceSet) (mailbox : Mailbox) (uid : Bool) → CommandBody
    create delete : (mailbox : Mailbox) → CommandBody
    enable : (capabilities : Vec1 (CapabilityEnable T)) → CommandBody
    fetch :
        (modifiers : List FetchModifier) (sequence_set : SequenceSet)
        (macro_or_item_names : MacroOrMessageDataItemNames) (uid : Bool)
        → CommandBody
    id : (parameters : Option (List (IString × NString))) → CommandBody
    list : (reference : Mailbox) (mailbox_wildcard : ListMailbox) → CommandBody
    login : (username password : AString) → CommandBody
    search : (charset : Option Charset) (criteria : Vec1 SearchKey) (uid : Bool) → CommandBody
    select examine : (mailbox : Mailbox) (parameters : List SelectParameter) → CommandBody
    sort :
        (sort_criteria : Vec1 SortCriterion) (charset : Charset) (search_criteria : Vec1 SearchKey)
        (uid : Bool)
        → CommandBody
    store :
        (sequence_set : SequenceSet) (kind : StoreType) (response : StoreResponse)
        (flags : List (Flag T)) (uid : Bool)
        → CommandBody
    thread :
        (algorithm : ThreadingAlgorithm) (charset : Charset) (search_criteria : Vec1 SearchKey)
        (uid : Bool)
        → CommandBody

  pub record Command : Type 0 where
    pub tag : Tag
    pub body : CommandBody
