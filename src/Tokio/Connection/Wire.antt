-- ===== src/Tokio/Connection/Wire.antt =====
-- From the wire to the output of a task: the client of src/client/tokio.rs on its connection.
use imap_client.Prelude.{
  ℕ, zero, suc, ◌≤◌, ◌<◌, Option, none, some, List, [], ◌∷◌, ◌++◌, ◌≡◌, refl, ◌∙◌, ok, err, length,
  arith,
}
use imap_client.Imap.{ImapTypes, io, output, need_more_input}
use imap_client.Task.{Registry}
use imap_client.Scheduler.ClientNext.{ClientNext}
use imap_client.Scheduler.State.{Scheduler, TaskHandle, Progressed, Outcome, returns, panics}
use imap_client.Scheduler.Progress.{continues, return, panic, step, progress, enqueue_input}
use imap_client.Resolver.{
  Resolver, ResolvingTask, Resolved, handle_result, next, resolve_task, enqueue_input_task,
  enqueue_input_resolver,
}
use imap_client.Stream.{Socket}
use imap_client.Stream.Dialogue.{Dialogue, Works, next-Dialogue}
use imap_client.Tokio.Connection.{value, task_state, resolve_on}

module _ {T : ImapTypes} {R : Registry T} {N : ClientNext T} {t : R.TaskType} where
  -- How a scheduler comes from one step to the next until the task of a handle has its output: the
  -- steps that go on, the events that the resolver passes over, the outputs that are to be written
  -- and the chunks of input that are waited for. The number is that of the steps.
  pub data Wire (handle : TaskHandle R t)
      : ℕ
        → Scheduler R N
        → List (List ℕ)
        → List (List ℕ)
        → R.Output (R.output_type t)
        → Scheduler R N
        → Type 0 where
    finishes :
        {s s₁ s' : Scheduler R N} {r : Progressed R} {out : R.Output (R.output_type t)}
        → step s ≡ return s₁ r
        → handle_result handle s₁ r ≡ return s' (ok out)
        → Wire handle 0 s [] [] out s'
    goes_on :
        {n : ℕ} {s s₁ s' : Scheduler R N} {ws rs : List (List ℕ)} {out : R.Output (R.output_type t)}
        → step s ≡ continues s₁
        → Wire handle n s₁ ws rs out s'
        → Wire handle (suc n) s ws rs out s'
    passes :
        {n : ℕ} {s s₁ s₂ s' : Scheduler R N} {r : Progressed R} {ws rs : List (List ℕ)}
        {out : R.Output (R.output_type t)}
        → step s ≡ return s₁ r
        → handle_result handle s₁ r ≡ continues s₂
        → Wire handle n s₂ ws rs out s'
        → Wire handle (suc n) s ws rs out s'
    writes :
        {n : ℕ} {s s₁ s' : Scheduler R N} {ws rs : List (List ℕ)} {bytes chunk : List ℕ} {b : ℕ}
        {out : R.Output (R.output_type t)}
        → step s ≡ return s₁ (err (io (output bytes)))
        → Wire handle n (enqueue_input s₁ (b ∷ chunk)) ws rs out s'
        → Wire handle (suc n) s (bytes ∷ ws) ((b ∷ chunk) ∷ rs) out s'
    waits :
        {n : ℕ} {s s₁ s' : Scheduler R N} {ws rs : List (List ℕ)} {chunk : List ℕ} {b : ℕ}
        {out : R.Output (R.output_type t)}
        → step s ≡ return s₁ (err (io need_more_input))
        → Wire handle n (enqueue_input s₁ (b ∷ chunk)) ws rs out s'
        → Wire handle (suc n) s ws ((b ∷ chunk) ∷ rs) out s'

module _ {T : ImapTypes} (R : Registry T) (N : ClientNext T) (inner outer : ℕ) {t : R.TaskType}
    (handle : TaskHandle R t) where
  abbrev resuming : Scheduler R N → ResolvingTask R N t
  resuming s = record { resolver = record { scheduler = s }; handle = handle }

  -- The rest of `next` after a call of `progress`.
  abbrev resume :
      ℕ
      → Option (Outcome (Scheduler R N) (Progressed R))
      → Option (Outcome (Scheduler R N) (Resolved R N t))
  resume left o = elim o [
    | none ↦ none
    | some panics ↦ some panics
    | some (returns s' result) ↦ elim (handle_result handle s' result) [
      | continues s'' ↦ next inner left handle s''
      | return s'' resolved ↦ some (returns s'' resolved)
      | panic ↦ some panics
    ]
  ]

  Wire-Dialogue :
      {n : ℕ} {s s' : Scheduler R N} {ws rs : List (List ℕ)} {out : R.Output (R.output_type t)}
      (start : Scheduler R N) (k left : ℕ)
      → next inner (suc outer) handle start ≡ resume left (progress k s)
      → Wire handle n s ws rs out s'
      → n < k
      → n < inner
      → n ≤ left
      → n ≤ outer
      → Dialogue
          (task_state R N inner (suc outer) t)
          (resuming start)
          ws
          rs
          (value out)
          (resuming s')
  unfolding next progress handle_result enqueue_input_task enqueue_input_resolver
  Wire-Dialogue start zero left h w a b c d = absurd (omega arith)
  Wire-Dialogue start (suc k) left h (Wire.finishes e f) a b c d =
      Dialogue.event (rw (h, progress, e, resume, f) refl)
  Wire-Dialogue start (suc k) left h (Wire.goes_on e w) a b c d =
      Wire-Dialogue start k left (h ∙ rw (progress, e) refl) w (omega arith) (omega arith)
        (omega arith) (omega arith)
  Wire-Dialogue start (suc k) zero h (Wire.passes e f w) a b c d = absurd (omega arith)
  Wire-Dialogue start (suc k) (suc left) h (Wire.passes e f w) a b c d =
      Wire-Dialogue start inner left (h ∙ rw (progress, e, resume, f) refl) w (omega arith)
        (omega arith) (omega arith) (omega arith)
  Wire-Dialogue start (suc k) left h (Wire.writes e w) a b c d =
      Dialogue.wrote (rw (h, progress, e, resume, handle_result) refl)
        (Wire-Dialogue _ inner outer refl w (omega arith) (omega arith) (omega arith) (omega arith))
  Wire-Dialogue start (suc k) left h (Wire.waits e w) a b c d =
      Dialogue.waited (rw (h, progress, e, resume, handle_result) refl)
        (Wire-Dialogue _ inner outer refl w (omega arith) (omega arith) (omega arith) (omega arith))

  abbrev pub Delivers :
      (K : Socket)
      → Works K
      → ℕ
      → (R.task t).Self
      → Resolver R N
      → K.S
      → Scheduler R N
      → List (List ℕ)
      → List (List ℕ)
      → R.Output (R.output_type t)
      → Type 0
  Delivers K works fuel task resolver stream s' ws rest out =
      (stream' : K.S) × (resolve_on R N inner (suc outer) K fuel t task resolver stream
        ≡ some (ok out, (record { scheduler = s' }, stream')))
      × (works.incoming stream' ≡ rest)
      × (works.written stream' ≡ works.written stream ++ ws)

  pub resolve_on-Wire :
      (K : Socket) (works : Works K) (fuel n : ℕ) (task : (R.task t).Self) (resolver : Resolver R N)
      (stream : K.S) {started s' : Scheduler R N} {ws rs rest : List (List ℕ)}
      {out : R.Output (R.output_type t)}
      → resolve_task resolver t task ≡ returns (resuming started) tt
      → Wire handle n started ws rs out s'
      → works.incoming stream ≡ rs ++ rest
      → length rs < fuel
      → n < inner
      → n ≤ outer
      → Delivers K works fuel task resolver stream s' ws rest out
  unfolding next
  resolve_on-Wire K works fuel n task resolver stream {started} {rest = rest} h w i f a b =
      let (stream', ends, left, written) =
        next-Dialogue (task_state R N inner (suc outer) t) K works fuel stream rest
          (Wire-Dialogue started inner outer refl w a a b b) i f in
      (stream', rw (h, ends) refl, left, written)
