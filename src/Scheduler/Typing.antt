-- ===== src/Scheduler/Typing.antt =====
-- A token gives a handle the type of output that the handle promises: `TaskHandle::resolve` and its
-- `downcast(..).unwrap()` in src/tasks/mod.rs.
use mathlib.Core.List.{Mem, Nodup, mem-cons_self}
use mathlib.Mathlib.Data.List.Nodup
use mathlib.Core.List.Perm
use mathlib.Core.Option
use mathlib.Core.HLevel.{hedberg}
use imap_client.Prelude.{
  ℕ, none, some, List, map, ◌≡◌, refl, sym, ap, ◌≢◌, ◌⊎◌, inl, inr, ok, arith, Option-cases, subst,
  some_injective, ◌∙◌,
}
use imap_client.Imap.{ImapTypes}
use imap_client.Task.{Registry, Any, downcast_typed}
use imap_client.Scheduler.ClientNext.{ClientNext}
use imap_client.Scheduler.State.{
  Scheduler, SchedulerEvent, TaskToken, TaskHandle, returns, resolve, downcast_output,
}
use imap_client.Scheduler.Progress.{progress}
use imap_client.Scheduler.Conservation.{Promise, fulfilled}
use imap_client.Scheduler.Lifetime.{issued, History, history-perm}

module _ {T : ImapTypes} where
  Promise-set : (R : Registry T) → IsSet (Promise R)
  Promise-set R = hlevel (hedberg T.handle_discrete, hedberg R.output_type_discrete)

module _ {T : ImapTypes} {R : Registry T} where
  -- The token without its output.
  abbrev pub spent : TaskToken R → TaskToken R
  spent token = record token { output = none }

  -- What a handle finds in a token: nothing, if the token is another handle's. Otherwise a value of
  -- the output type of its task, and nothing when it asks again.
  abbrev pub Resolves : {t : R.TaskType} → TaskHandle R t → TaskToken R → Type 0
  Resolves {t} h token =
      ((token.handle ≢ h.handle) × (resolve h token ≡ returns token none))
      ⊎ ((token.handle ≡ h.handle)
          × (v : R.Output (R.output_type t)) × (resolve h token ≡ returns (spent token) (some v))
          × (resolve h (spent token) ≡ returns (spent token) none))

  resolve_own :
      {t : R.TaskType} (h : TaskHandle R t) (token : TaskToken R) {output : Any R}
      → token.handle ≡ h.handle
      → token.output ≡ some output
      → resolve h token ≡ downcast_output t token output
  unfolding resolve
  resolve_own h token same e = ground (arith, e)

  -- An output of the promised type is in the token.
  resolve_typed :
      {t : R.TaskType} (h : TaskHandle R t) (token : TaskToken R)
      → (token.handle ≡ h.handle → fulfilled token ≡ issued h)
      → Resolves h token
  unfolding resolve
  resolve_typed {t} h token same = elim (T.handle_discrete token.handle h.handle) [
    | no n ↦ inl (n, ground arith)
    | yes y ↦ elim (Option-cases token.output) [
      | inl e ↦ absurd (ground (arith, same y))
      | inr (output, e) ↦
          let typed : output.type ≡ R.output_type t =
            some_injective
              (ap (Option.map (λ (o : Any R). o.type)) (sym e) ∙ ap (λ p. p.1) (same y)) in
          inr (
            y,
            subst R.Output typed output.value,
            resolve_own h token y e
                ∙ rw (downcast_typed R (R.output_type t) output typed, downcast_output) refl,
            ground arith,
          )
    ]
  ]

module _ {T : ImapTypes} {R : Registry T} {N : ClientNext T} where
  -- If the client gave out no handle twice, then every handle of a task that was enqueued gets from
  -- every token that `progress` reports what it was promised: if the token is its own, an output of
  -- the type of its task, once; and nothing from other tokens. No `unwrap` of a downcast panics.
  pub progress-Resolves :
      {client_next : N.Client} {tags : N.TagGenerator} {es fs : List (Promise R)}
      {s s' : Scheduler R N}
      → History client_next tags es fs s
      → Nodup (map (λ p. p.0) es)
      → (fuel : ℕ) (token : TaskToken R)
      → progress fuel s ≡ some (returns s' (ok (SchedulerEvent.task_finished token)))
      → {t : R.TaskType} (h : TaskHandle R t) → Mem (issued h) es
      → Resolves h token
  progress-Resolves {es} life once fuel token e {t} h given = resolve_typed h token (λ same.
      Nodup.inj_on_of_Nodup-map (Promise-set R) (λ p. p.0) {l = es} once (fulfilled token)
        (Perm.subset (Perm.symm (history-perm (History.progressed life fuel _ e))) _ mem-cons_self)
        (issued h) given same)
