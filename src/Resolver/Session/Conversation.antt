-- ===== src/Resolver/Session/Conversation.antt =====
-- What the client of imap-next yields while one command is completed, whatever its task makes of it.
use imap_client.Prelude.{ℕ, suc, Bool, true, false, List, [], ◌∷◌, ◌≡◌, ok, err}
use imap_client.Imap.{ImapTypes, Event, Data, Status, StatusBody, io, output, need_more_input}
use imap_client.Task.{Registry}
use imap_client.Task.Feed.{feed}
use imap_client.Scheduler.ClientNext.{ClientNext}
use imap_client.Scheduler.State.{TaskHandle}
use imap_client.Resolver.Session.Talk.{Talk}

module _ {T : ImapTypes} (N : ClientNext T) (handle : T.CommandHandle) (tag : T.Tag) where
  -- The results of `next`, one at each call: whether the command was sent before, their number but
  -- for the last, the data, the body of the tagged status that is the last, the outputs to be
  -- written and the chunks of input that are waited for.
  pub data Conversation
      : Bool
        → ℕ
        → N.Client
        → List (Data T)
        → StatusBody T
        → List (List ℕ)
        → List (List ℕ)
        → N.Client
        → Type 0 where
    sent :
        {n : ℕ} {c c₁ c' : N.Client} {ds : List (Data T)} {body : StatusBody T}
        {ws rs : List (List ℕ)}
        → N.next c ≡ (ok (Event.command_sent handle), c₁)
        → Conversation true n c₁ ds body ws rs c'
        → Conversation false (suc n) c ds body ws rs c'
    receives :
        {n : ℕ} {c c₁ c' : N.Client} {d : Data T} {ds : List (Data T)} {body : StatusBody T}
        {ws rs : List (List ℕ)}
        → N.next c ≡ (ok (Event.data_received d), c₁)
        → Conversation true n c₁ ds body ws rs c'
        → Conversation true (suc n) c (d ∷ ds) body ws rs c'
    completes :
        {c c' : N.Client} {body : StatusBody T}
        → N.next c
          ≡ (ok (Event.status_received (Status.tagged (record { tag = tag; body = body }))), c')
        → Conversation true 0 c [] body [] [] c'
    writes :
        {active : Bool} {n : ℕ} {c c₁ c' : N.Client} {ds : List (Data T)} {body : StatusBody T}
        {ws rs : List (List ℕ)} {bytes chunk : List ℕ} {b : ℕ}
        → N.next c ≡ (err (io (output bytes)), c₁)
        → Conversation active n (N.enqueue_input c₁ (b ∷ chunk)) ds body ws rs c'
        → Conversation active (suc n) c ds body (bytes ∷ ws) ((b ∷ chunk) ∷ rs) c'
    waits :
        {active : Bool} {n : ℕ} {c c₁ c' : N.Client} {ds : List (Data T)} {body : StatusBody T}
        {ws rs : List (List ℕ)} {chunk : List ℕ} {b : ℕ}
        → N.next c ≡ (err (io need_more_input), c₁)
        → Conversation active n (N.enqueue_input c₁ (b ∷ chunk)) ds body ws rs c'
        → Conversation active (suc n) c ds body ws ((b ∷ chunk) ∷ rs) c'

-- The output of a task that was offered the data and then completed.
abbrev pub output_of :
    {T : ImapTypes} (R : Registry T) (t : R.TaskType)
    → (R.task t).Self
    → List (Data T)
    → StatusBody T
    → R.Output (R.output_type t)
output_of R t self ds body = (R.task t).process_tagged (feed (R.task t).process_data self ds).1 body

module _ {T : ImapTypes} {R : Registry T} {N : ClientNext T} (t : R.TaskType)
    (handle : TaskHandle R t) (tag : T.Tag) where
  -- The task alone has the talk of any conversation about its command.
  pub Conversation-Talk :
      {active : Bool} {n : ℕ} {c c' : N.Client} {ds : List (Data T)} {body : StatusBody T}
      {ws rs : List (List ℕ)}
      → Conversation N handle.handle tag active n c ds body ws rs c'
      → (self : (R.task t).Self)
      → Talk N t handle tag active n c self ws rs (output_of R t self ds body) c'
  unfolding feed
  Conversation-Talk (Conversation.sent h k) self = Talk.sent h (Conversation-Talk k self)
  Conversation-Talk (Conversation.receives h k) self = Talk.receives h (Conversation-Talk k _)
  Conversation-Talk (Conversation.completes h) self = Talk.completes h
  Conversation-Talk (Conversation.writes h k) self = Talk.writes h (Conversation-Talk k self)
  Conversation-Talk (Conversation.waits h k) self = Talk.waits h (Conversation-Talk k self)
