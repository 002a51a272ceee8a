-- ===== src/Examples.antt =====
-- A small instance of every parameter, on which the examples of the children run.
mod Sessions
mod Responses
mod Clients
mod Streams
mod Connections
mod Channels
mod Appended
mod Condstored
mod Deliveries
mod Unanswered
mod Exchanged
mod Orders
mod Logged
use mathlib.Core.List.Perm
use imap_client.Prelude.{
  ℕ, suc, zero, ◌+◌, Option, none, some, List, [], ◌∷◌, ◌++◌, Result, ok, err, ℕ_discrete,
}
use imap_client.Prelude.HashMap.{Iteration}
use imap_client.Imap.{
  ImapTypes, Event, Interrupt, io, Error, need_more_input, StatusBody, StatusKind,
}
use imap_client.Task.{Registry}
use imap_client.Tasks.Library.{library}
use imap_client.Scheduler.ClientNext.{ClientNext}

abbrev pub T₀ : ImapTypes
T₀ = record {
  Mailbox = ℕ;
  ListMailbox = ℕ;
  QuotedChar = ℕ;
  FlagNameAttribute = ℕ;
  FlagPerm = ℕ;
  DateTime = ℕ;
  Literal = ℕ;
  SequenceSet = ℕ;
  Macro = ℕ;
  Charset = ℕ;
  Thread = ℕ;
  ThreadingAlgorithm = ℕ;
  AString = ℕ;
  IString = ℕ;
  NString = ℕ;
  Text = ℕ;
  GreetingKind = ℕ;
  Tag = ℕ;
  CommandHandle = ℕ;
  NextError = ℕ;
  Other = ℕ;
  tag_discrete = ℕ_discrete;
  handle_discrete = ℕ_discrete;
  date_time_discrete = ℕ_discrete;
  n_string_discrete = ℕ_discrete;
  other_discrete = ℕ_discrete;
  utf_8 = 8;
  sequence_set_from = λ n. n;
}

-- Iteration in the order of the entries.
abbrev pub in_order : Iteration
in_order = record { iter = λ A xs. xs; iter-perm = λ A xs. Perm.rfl }

abbrev pub all_tasks : Registry T₀
all_tasks = library in_order T₀

-- A client that counts its handles, then plays the events of a script.
pub record Script : Type 0 where
  pub next_handle : ℕ
  pub script : List (Result (Event T₀) (Interrupt (Error T₀)))

abbrev play : Script → Result (Event T₀) (Interrupt (Error T₀)) × Script
play c = elim c.script [
  | [] ↦ (err (io need_more_input), c)
  | r ∷ rs ↦ (r, record c { script = rs })
]

abbrev pub scripted : ClientNext T₀
scripted = record {
  Client = Script;
  TagGenerator = ℕ;
  generate = λ n. (n, suc n);
  enqueue_command = λ c command. (c.next_handle, record c { next_handle = suc c.next_handle });
  enqueue_input = λ c bytes. c;
  next = play;
  set_authenticate_data = λ c answer. some c;
  set_idle_done = λ c. c;
}

abbrev pub plays : List (Result (Event T₀) (Interrupt (Error T₀))) → Script
plays script = record { next_handle = 0; script = script }

abbrev pub done : StatusBody T₀
done = record { kind = StatusKind.ok; code = none; text = 0 }

abbrev pub refused : StatusBody T₀
refused = record { kind = StatusKind.no; code = none; text = 0 }
