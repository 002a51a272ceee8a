-- ===== src/Scheduler/ClientNext.antt =====
-- The interface of `imap_next::client::Client` and of `TagGenerator`, which are not in this
-- repository: their types and the operations that the scheduler calls.
use imap_client.Prelude.{ℕ, List, Option, Result}
use imap_client.Imap.{ImapTypes, Command, Event, Interrupt, Error, AuthenticateData}

pub record ClientNext (T : ImapTypes) : Type 1 where
  pub Client : Type 0
  pub TagGenerator : Type 0
  pub generate : TagGenerator → T.Tag × TagGenerator
  pub enqueue_command : Client → Command T → T.CommandHandle × Client
  pub enqueue_input : Client → List ℕ → Client
  pub next : Client → Result (Event T) (Interrupt (Error T)) × Client
  -- `none` where the client refuses the data, since no authentication is going on.
  pub set_authenticate_data : Client → AuthenticateData T → Option Client
  pub set_idle_done : Client → Client
