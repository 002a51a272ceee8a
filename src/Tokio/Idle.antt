-- ===== src/Tokio/Idle.antt =====
-- IDLE in src/client/tokio.rs.
use imap_client.Prelude.{
  ℕ, zero, suc, Bool, true, false, Option, none, some, Result, ok, err, if◌then◌else◌,
}
use imap_client.Imap.{ImapTypes, Event, Status, CommandBody}
use imap_client.Task.{Registry}
use imap_client.Scheduler.ClientNext.{ClientNext}
use imap_client.Resolver.{Resolver}
use imap_client.Client.{Client, Duration}

-- `Stream::next` on the client of imap-next, alone and under `tokio::time::timeout`.
pub record Channel {T : ImapTypes} (N : ClientNext T) : Type 1 where
  pub Stream : Type 0
  pub Error : Type 0
  -- `none` where it does not come back.
  pub next : N.Client → Stream → Option (Result (Event T) Error × (N.Client × Stream))
  -- The outcome is `none` where the time is over.
  pub next_within :
      Duration → N.Client → Stream → Option (Result (Event T) Error) × (N.Client × Stream)

module _ {T : ImapTypes} (R : Registry T) (N : ClientNext T) (C : Channel N) where
  open C use {Stream}

  -- The fields of the client that IDLE uses.
  pub record Idler : Type 0 where
    pub state : Client T (Resolver R N)
    pub stream : Stream

  -- How a turn of a loop ends: the loop goes on, or breaks.
  pub data Turn : Type 0 where
    continues : Idler → Turn
    breaks : Result (Unit {0}) C.Error → Idler → Turn

-- The tagged status of this tag.
abbrev pub is_tagged : {T : ImapTypes} → T.Tag → Status T → Bool
is_tagged {T} tag (Status.tagged tagged) = elim (T.tag_discrete tagged.tag tag) [
  | yes _ ↦ true
  | no _ ↦ false
]
is_tagged tag _ = false

module _ {T : ImapTypes} {R : Registry T} {N : ClientNext T} {C : Channel N} where
  open C use {Stream}

  -- `self.state.resolver.scheduler.client_next`, and the client with another one.
  abbrev pub client_next : Idler R N C → N.Client
  client_next c = c.state.resolver.scheduler.client_next

  abbrev pub with_client_next : Idler R N C → N.Client → Idler R N C
  with_client_next c n = record c {
    state = record c.state {
      resolver = record { scheduler = record c.state.resolver.scheduler { client_next = n } };
    };
  }

  abbrev pub set_idle_done : Idler R N C → Idler R N C
  set_idle_done c = with_client_next c (N.set_idle_done (client_next c))

  -- After the stream was polled.
  abbrev pub polled : Idler R N C → N.Client × Stream → Idler R N C
  polled c (n, stream) = record (with_client_next c n) { stream = stream }

  unfoldable pub enqueue_idle : Idler R N C → T.Tag × Idler R N C
  enqueue_idle c =
      let (tag, tag_generator) = N.generate c.state.resolver.scheduler.tag_generator in
      let enqueued =
        N.enqueue_command (client_next c) (record { tag = tag; body = CommandBody.idle }) in
      (
        tag,
        record c {
          state = record c.state {
            resolver = record {
              scheduler = record c.state.resolver.scheduler {
                tag_generator = tag_generator;
                client_next = enqueued.1;
              };
            };
          };
        },
      )

  -- The `match` of `idle`.
  unfoldable pub handle_idle : T.Tag → Idler R N C → Option (Result (Event T) C.Error) → Turn R N C
  handle_idle tag c none = continues (set_idle_done c)
  handle_idle tag c (some (err e)) = breaks (err e) c
  handle_idle tag c (some (ok (Event.idle_rejected handle status))) = breaks (ok tt) c
  handle_idle tag c (some (ok (Event.data_received data'))) = continues (set_idle_done c)
  handle_idle tag c (some (ok (Event.status_received status))) =
      if is_tagged tag status then breaks (ok tt) c else continues c
  handle_idle tag c (some (ok _)) = continues c

  -- `idle`, on fuel: `none` where that runs out.
  unfoldable pub idle : ℕ → T.Tag → Idler R N C → Option (Result (Unit {0}) C.Error × Idler R N C)
  idle zero tag c = none
  idle (suc fuel) tag c =
      let (outcome, after) = C.next_within c.state.idle_timeout (client_next c) c.stream in
      elim (handle_idle tag (polled c after) outcome) [
        | continues c' ↦ idle fuel tag c'
        | breaks result c' ↦ some (result, c')
      ]

  -- The `match` of `idle_done`.
  unfoldable pub handle_idle_done : T.Tag → Idler R N C → Event T → Turn R N C
  handle_idle_done tag c (Event.status_received status) =
      if is_tagged tag status then breaks (ok tt) c else continues c
  handle_idle_done tag c _ = continues c

  abbrev handle_polled : T.Tag → Idler R N C → Result (Event T) C.Error → Turn R N C
  handle_polled tag c (ok event) = handle_idle_done tag c event
  handle_polled tag c (err e) = breaks (err e) c

  unfoldable pub idle_done_loop :
      ℕ → T.Tag → Idler R N C → Option (Result (Unit {0}) C.Error × Idler R N C)
  idle_done_loop zero tag c = none
  idle_done_loop (suc fuel) tag c = elim (C.next (client_next c) c.stream) [
    | none ↦ none
    | some (result, after) ↦ elim (handle_polled tag (polled c after) result) [
      | continues c' ↦ idle_done_loop fuel tag c'
      | breaks result c' ↦ some (result, c')
    ]
  ]

  unfoldable pub idle_done :
      ℕ → T.Tag → Idler R N C → Option (Result (Unit {0}) C.Error × Idler R N C)
  idle_done fuel tag c = idle_done_loop fuel tag (set_idle_done c)
