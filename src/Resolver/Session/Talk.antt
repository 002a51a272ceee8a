-- ===== src/Resolver/Session/Talk.antt =====
-- A session of one task in src/tasks/resolver.rs with its input and output, as the client of
-- imap-next sees it.
use imap_client.Prelude.{
  ℕ, suc, Bool, true, false, List, [], ◌∷◌, ◌≡◌, refl, ap, ◌∙◌, Result, ok, err, Option-cases, inl,
  inr, arith,
}
use imap_client.Prelude.Deque.{remove_first, position, remove_at}
use imap_client.Imap.{
  ImapTypes, Event, Data, Status, StatusBody, Response, Interrupt, Error, Io, io, output,
  need_more_input,
}
use imap_client.Task.{Registry, process_tagged}
use imap_client.Scheduler.ClientNext.{ClientNext}
use imap_client.Scheduler.TaskMap.{remove_by_handle, push_back}
use imap_client.Scheduler.State.{Scheduler, SchedulerEvent, TaskHandle}
use imap_client.Scheduler.Progress.{
  continues, return, handle_event, handle_next, step, activate, enqueue_input,
}
use imap_client.Resolver.{handle_result, after_resolve}
use imap_client.Resolver.Session.{
  entry, running, idle, complete_single, offer_single, own_result, resolve_own,
}
use imap_client.Tokio.Connection.Wire.{Wire}

module _ {T : ImapTypes} {R : Registry T} (N : ClientNext T) (t : R.TaskType)
    (handle : TaskHandle R t) (tag : T.Tag) where
  -- What the client of imap-next yields, one result at each call of `next`: whether the command of
  -- the task was sent before, the data that the task is offered, the outputs and the chunks of
  -- input, and last the tagged status. The number is that of the results before the last.
  pub data Talk
      : Bool
        → ℕ
        → N.Client
        → (R.task t).Self
        → List (List ℕ)
        → List (List ℕ)
        → R.Output (R.output_type t)
        → N.Client
        → Type 0 where
    sent :
        {n : ℕ} {c c₁ c' : N.Client} {self : (R.task t).Self} {ws rs : List (List ℕ)}
        {out : R.Output (R.output_type t)}
        → N.next c ≡ (ok (Event.command_sent handle.handle), c₁)
        → Talk true n c₁ self ws rs out c'
        → Talk false (suc n) c self ws rs out c'
    receives :
        {n : ℕ} {c c₁ c' : N.Client} {self : (R.task t).Self} {ws rs : List (List ℕ)}
        {out : R.Output (R.output_type t)} {d : Data T}
        → N.next c ≡ (ok (Event.data_received d), c₁)
        → Talk true n c₁ ((R.task t).process_data self d).1 ws rs out c'
        → Talk true (suc n) c self ws rs out c'
    completes :
        {c c' : N.Client} {self : (R.task t).Self} {body : StatusBody T}
        → N.next c
          ≡ (ok (Event.status_received (Status.tagged (record { tag = tag; body = body }))), c')
        → Talk true 0 c self [] [] ((R.task t).process_tagged self body) c'
    writes :
        {active : Bool} {n : ℕ} {c c₁ c' : N.Client} {self : (R.task t).Self}
        {ws rs : List (List ℕ)} {out : R.Output (R.output_type t)} {bytes chunk : List ℕ} {b : ℕ}
        → N.next c ≡ (err (io (output bytes)), c₁)
        → Talk active n (N.enqueue_input c₁ (b ∷ chunk)) self ws rs out c'
        → Talk active (suc n) c self (bytes ∷ ws) ((b ∷ chunk) ∷ rs) out c'
    waits :
        {active : Bool} {n : ℕ} {c c₁ c' : N.Client} {self : (R.task t).Self}
        {ws rs : List (List ℕ)} {out : R.Output (R.output_type t)} {chunk : List ℕ} {b : ℕ}
        → N.next c ≡ (err (io need_more_input), c₁)
        → Talk active n (N.enqueue_input c₁ (b ∷ chunk)) self ws rs out c'
        → Talk active (suc n) c self ws ((b ∷ chunk) ∷ rs) out c'

module _ {T : ImapTypes} {R : Registry T} {N : ClientNext T} (t : R.TaskType)
    (handle : TaskHandle R t) (tag : T.Tag) (tags : N.TagGenerator) where
  -- The scheduler with this task alone, whose command is still to be sent or was sent.
  abbrev pub alone : Bool → N.Client → (R.task t).Self → Scheduler R N
  alone false c self = record {
    client_next = c;
    waiting_tasks = entry t handle tag self ∷ [];
    active_tasks = [];
    tag_generator = tags;
  }
  alone true c self = running t handle tag [] tags c self

  alone-step :
      (active : Bool) (c : N.Client) {c₁ : N.Client} (self : (R.task t).Self)
      {result : Result (Event T) (Interrupt (Error T))}
      → N.next c ≡ (result, c₁)
      → step (alone active c self) ≡ handle_next (alone active c₁ self) result
  unfolding step
  alone-step false c self h = rw h refl
  alone-step true c self h = rw h refl

  alone-activate :
      (c : N.Client) (self : (R.task t).Self)
      → handle_event (alone false c self) (Event.command_sent handle.handle)
        ≡ continues (alone true c self)
  unfolding handle_event activate remove_by_handle remove_first position remove_at push_back
  alone-activate c self = ground arith

  finishes :
      (s : Scheduler R N) (v : R.Output (R.output_type t))
      → handle_result handle s (own_result handle v) ≡ return s (ok v)
  unfolding handle_result
  finishes s v = ap (after_resolve s) (resolve_own t handle v)

  alone-io :
      (active : Bool) (c : N.Client) {c₁ : N.Client} (self : (R.task t).Self) {i : Io}
      → N.next c ≡ (err (io i), c₁)
      → step (alone active c self) ≡ return (alone active c₁ self) (err (io i))
  unfolding handle_next
  alone-io active c self h = alone-step active c self h

  alone-enqueue :
      (active : Bool) (c : N.Client) (self : (R.task t).Self) (bytes : List ℕ)
      → enqueue_input (alone active c self) bytes ≡ alone active (N.enqueue_input c bytes) self
  unfolding enqueue_input
  alone-enqueue false c self bytes = refl
  alone-enqueue true c self bytes = refl

  -- What the client of imap-next yields is what the scheduler with this task alone does.
  pub Talk-Wire :
      {active : Bool} {n : ℕ} {c c' : N.Client} {self : (R.task t).Self} {ws rs : List (List ℕ)}
      {out : R.Output (R.output_type t)}
      → Talk N t handle tag active n c self ws rs out c'
      → Wire handle n (alone active c self) ws rs out (idle t handle tag [] tags c')
  unfolding handle_next handle_result process_tagged
  Talk-Wire {c = c} {self = self} (Talk.sent {c₁ = c₁} h talk) =
      Wire.goes_on (alone-step false c self h ∙ alone-activate c₁ self) (Talk-Wire talk)
  Talk-Wire {c = c} {self = self} (Talk.receives {c₁ = c₁} {d = d} h talk) =
      elim (Option-cases ((R.task t).process_data self d).0) [
        | inl kept ↦
            Wire.goes_on
              (alone-step true c self h
                ∙ offer_single t handle tag [] tags c₁ self d
                ∙ rw kept refl)
              (Talk-Wire talk)
        | inr (d', back) ↦
            Wire.passes {r = ok (SchedulerEvent.unsolicited (Response.data_response d'))}
              (alone-step true c self h
                ∙ offer_single t handle tag [] tags c₁ self d
                ∙ rw back refl)
              refl (Talk-Wire talk)
      ]
  Talk-Wire {c = c} {c'} {self} (Talk.completes {body = body} h) =
      Wire.finishes (alone-step true c self h ∙ complete_single t handle tag [] tags c' self body)
        (finishes (idle t handle tag [] tags c') ((R.task t).process_tagged self body))
  Talk-Wire {active} {c = c} {self = self}
        (Talk.writes {c₁ = c₁} {bytes = bytes} {chunk} {b} h talk) =
      Wire.writes (alone-io active c self h)
        (rw (alone-enqueue active c₁ self (b ∷ chunk)) (Talk-Wire talk))
  Talk-Wire {active} {c = c} {self = self} (Talk.waits {c₁ = c₁} {chunk = chunk} {b} h talk) =
      Wire.waits (alone-io active c self h)
        (rw (alone-enqueue active c₁ self (b ∷ chunk)) (Talk-Wire talk))
