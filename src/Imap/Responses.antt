-- ===== src/Imap/Responses.antt =====
-- `imap_types::response`, `fetch`, `auth` and `flag`: what a server sends.
use imap_client.Prelude.{ℕ, List, Option}
use imap_client.Imap.Types.{ImapTypes}

abbrev pub Vec1 : Type 0 → Type 0
Vec1 A = List A

module _ (T : ImapTypes) where
  open T use {
    Mailbox, QuotedChar, FlagNameAttribute, FlagPerm, DateTime, Thread, IString, NString, Text,
    GreetingKind, Tag, Other,
  }

  pub data AuthMechanism : Type 0 where
    plain o_auth_bearer x_o_auth2 : AuthMechanism
    other : Other → AuthMechanism

  pub data Capability : Type 0 where
    imap4_rev1 login_disabled enable sasl_ir id uid_plus idle binary move cond_store : Capability
    auth : AuthMechanism → Capability
    sort thread : Other → Capability
    other : Other → Capability

  pub data CapabilityEnable : Type 0 where
    cond_store : CapabilityEnable
    other : Other → CapabilityEnable

  pub data Flag : Type 0 where
    deleted : Flag
    other : Other → Flag

  -- The fields that the client reads; `rest` stands for the others.
  pub record Envelope : Type 0 where
    pub date : NString
    pub subject : NString
    pub rest : Other

  pub data MessageDataItem : Type 0 where
    uid rfc822_size : ℕ → MessageDataItem
    internal_date : DateTime → MessageDataItem
    envelope : Envelope → MessageDataItem
    other : Other → MessageDataItem

  pub data Code : Type 0 where
    capability : Vec1 Capability → Code
    append_uid : (uid uid_validity : ℕ) → Code
    unseen uid_next uid_validity highest_mod_seq : ℕ → Code
    permanent_flags : List FlagPerm → Code
    other : Other → Code

  pub data Data : Type 0 where
    capability : Vec1 Capability → Data
    list :
        (items : List FlagNameAttribute) (delimiter : Option QuotedChar) (mailbox : Mailbox) → Data
    flags : List Flag → Data
    exists recent expunge : ℕ → Data
    search sort : List ℕ → Option ℕ → Data
    thread : List Thread → Data
    fetch : (seq : ℕ) (items : Vec1 MessageDataItem) → Data
    enabled : List CapabilityEnable → Data
    id : Option (List (IString × NString)) → Data
    other : Other → Data

  pub data StatusKind : Type 0 where
    ok no bad : StatusKind

  pub record StatusBody : Type 0 where
    pub kind : StatusKind
    pub code : Option Code
    pub text : Text

  pub record Tagged : Type 0 where
    pub tag : Tag
    pub body : StatusBody

  pub record Bye : Type 0 where
    pub code : Option Code
    pub text : Text

  pub data Status : Type 0 where
    untagged : StatusBody → Status
    tagged : Tagged → Status
    bye : Bye → Status

  pub record Greeting : Type 0 where
    pub kind : GreetingKind
    pub code : Option Code
    pub text : Text

  pub data CommandContinuationRequest : Type 0 where
    basic : Text → CommandContinuationRequest
    base64 : List ℕ → CommandContinuationRequest

  pub data AuthenticateData : Type 0 where
    continue : List ℕ → AuthenticateData
    cancel : AuthenticateData

  pub data Response : Type 0 where
    command_continuation_request : CommandContinuationRequest → Response
    data_response : Data → Response
    status : Status → Response
