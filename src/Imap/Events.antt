-- ===== src/Imap/Events.antt =====
-- `imap_next`: interrupts and the events and errors of its client.
use imap_client.Prelude.{ℕ, List}
use imap_client.Imap.Types.{ImapTypes}
use imap_client.Imap.Responses.{Data, Status, Greeting, CommandContinuationRequest}

pub data Io : Type 0 where
  output : List ℕ → Io
  need_more_input : Io

pub data Interrupt (E : Type 0) : Type 0 where
  io : Io → Interrupt E
  error : E → Interrupt E

module _ (T : ImapTypes) where
  open T use {CommandHandle, NextError}

  -- `imap_next::client::Error`
  pub data Error : Type 0 where
    malformed_message : (discarded_bytes : List ℕ) → Error
    other : NextError → Error

  -- `imap_next::client::Event`, without the fields that the client does not read.
  pub data Event : Type 0 where
    greeting_received : Greeting T → Event
    command_sent : (handle : CommandHandle) → Event
    command_rejected : (handle : CommandHandle) (status : Status T) → Event
    authenticate_started : (handle : CommandHandle) → Event
    authenticate_continuation_request_received :
        (handle : CommandHandle) (continuation_request : CommandContinuationRequest T) → Event
    authenticate_status_received : (handle : CommandHandle) (status : Status T) → Event
    data_received : Data T → Event
    continuation_request_received : CommandContinuationRequest T → Event
    status_received : Status T → Event
    idle_command_sent : (handle : CommandHandle) → Event
    idle_accepted : (handle : CommandHandle) → Event
    idle_rejected : (handle : CommandHandle) (status : Status T) → Event
    idle_done_sent : (handle : CommandHandle) → Event
