-- ===== src/Tokio/MovePlan.antt =====
-- What `_move_or_fallback` of src/client/tokio.rs sends to a server without MOVE, and where it stops.
use imap_client.Prelude.{
  Bool, true, false, Option, none, some, List, [], ◌∷◌, ◌≡◌, refl, sym, subst, ◌∙◌, Bool-cases, ◌↔◌,
  Result, ok, err, some_injective, inl, inr,
}
use imap_client.Imap.{Flag, StoreType}
use imap_client.Client.{ext_move_supported}
use imap_client.Tasks.{TaskError}
use imap_client.Tasks.Copy
use imap_client.Tasks.Expunge
use imap_client.Tasks.Move
use imap_client.Tasks.SilentStore
use imap_client.Tasks.Store
use imap_client.Tasks.Library.{TaskType, all_tasks, library_task, output_type, Payload}
use imap_client.Tokio.Api.{
  Environment, Method, TokioClient, ClientError, pure, ◌>>=◌, resolve, run, checked, after,
}
use imap_client.Tokio.Messages.{_copy, _move, _silent_store}
use imap_client.Tokio.Commands.{expunge}
use imap_client.Tokio.Fallback.{_move_or_fallback}

module _ (E : Environment) where
  open E use {I, T}

  -- A task with its type.
  abbrev pub Step : Type 0
  Step = (t : TaskType) × (library_task I T t).Self

  -- A method that resolves these tasks one after the other ends like this: it stops at the first
  -- task that fails, with its error, or after the last one.
  pub data Follows
      : List Step → TokioClient E → Result (Unit {0}) (ClientError E) → TokioClient E → Type 0 where
    complete : {c : TokioClient E} → Follows [] c (ok tt) c
    next :
        {c c' c'' : TokioClient E} {r : Result (Unit {0}) (ClientError E)} {steps : List Step}
        {t : TaskType} {task : (library_task I T t).Self} {output : Payload T (output_type t)}
        → resolve {E = E} t task c ≡ some (ok (ok output), c')
        → Follows steps c' r c''
        → Follows ((t, task) ∷ steps) c r c''
    refused :
        {c c' : TokioClient E} {steps : List Step} {t : TaskType} {task : (library_task I T t).Self}
        {e : TaskError T}
        → resolve {E = E} t task c ≡ some (ok (err e), c')
        → Follows ((t, task) ∷ steps) c (err (ClientError.resolve_task e)) c'
    broken :
        {c c' : TokioClient E} {steps : List Step} {t : TaskType} {task : (library_task I T t).Self}
        {e : ClientError E}
        → resolve {E = E} t task c ≡ some (err e, c')
        → Follows ((t, task) ∷ steps) c (err e) c'

  abbrev run_plan : List Step → Method E (Unit {0})
  run_plan [] = pure tt
  run_plan ((t, task) ∷ steps) = run t task >>= λ _. run_plan steps

  run_plan_complete :
      {steps : List Step} {c c' : TokioClient E} {r : Result (Unit {0}) (ClientError E)}
      → Follows steps c r c'
      → run_plan steps c ≡ some (r, c')
  unfolding run
  run_plan_complete complete = refl
  run_plan_complete (next e f) = rw e (run_plan_complete f)
  run_plan_complete (refused e) = rw e refl
  run_plan_complete (broken e) = rw e refl

  run_plan_sound :
      (steps : List Step) (c : TokioClient E) {r : Result (Unit {0}) (ClientError E)}
      {c' : TokioClient E}
      → run_plan steps c ≡ some (r, c')
      → Follows steps c r c'
  unfolding run
  run_plan_sound [] c h = subst (λ x. Follows [] c x.0 x.1) (some_injective h) complete
  run_plan_sound ((t, task) ∷ steps) c {r} {c'} h =
      split (λ c₁. run_plan_sound steps c₁) (resolve {E = E} t task c) refl h
    where
      split :
          ((c₁ : TokioClient E) → run_plan steps c₁ ≡ some (r, c') → Follows steps c₁ r c')
          → (o : Option (
              Result (Result (Payload T (output_type t)) (TaskError T)) (ClientError E)
              × TokioClient E))
          → resolve {E = E} t task c ≡ o
          → after (λ _. run_plan steps) (after checked o) ≡ some (r, c')
          → Follows ((t, task) ∷ steps) c r c'
      split go none e h = cc
      split go (some (ok (ok output), c₁)) e h = next e (go c₁ h)
      split go (some (ok (err x), c₁)) e h =
          subst (λ y. Follows ((t, task) ∷ steps) c y.0 y.1) (some_injective h) (refused e)
      split go (some (err x, c₁)) e h =
          subst (λ y. Follows ((t, task) ∷ steps) c y.0 y.1) (some_injective h) (broken e)

  -- MOVE. Or COPY, then STORE +FLAGS.SILENT (\Deleted), both on the given messages, then EXPUNGE.
  unfoldable pub move_plan : (supported : Bool) → T.SequenceSet → T.Mailbox → Bool → List Step
  unfolding all_tasks
  move_plan true sequence_set mbox uid =
      (TaskType.move, Move.with_uid (Move.new sequence_set mbox) uid) ∷ []
  move_plan false sequence_set mbox uid =
      (TaskType.copy, Copy.with_uid (Copy.new sequence_set mbox) uid)
      ∷ (
        TaskType.silent_store,
        SilentStore.silent
            (Store.with_uid (Store.new sequence_set StoreType.add (Flag.deleted ∷ [])) uid),
      )
      ∷ (TaskType.expunge, Expunge.new)
      ∷ []

  unit-after :
      (o : Option (Result (Unit {0}) (ClientError E) × TokioClient E))
      → after {E = E} (λ _. pure {E = E} tt) o ≡ o
  unit-after none = refl
  unit-after (some (ok tt, c)) = refl
  unit-after (some (err e, c)) = refl

  move-run_plan :
      (sequence_set : T.SequenceSet) (mbox : T.Mailbox) (uid : Bool) (c : TokioClient E)
      → _move_or_fallback E sequence_set (ok mbox) uid c
        ≡ run_plan (move_plan (ext_move_supported c.state) sequence_set mbox uid) c
  unfolding _move_or_fallback _copy _move _silent_store expunge all_tasks move_plan
  move-run_plan sequence_set mbox uid c = elim (Bool-cases (ext_move_supported c.state)) [
    | inl h ↦ rw h (sym (unit-after (run TaskType.move _ c)))
    | inr h ↦ rw h refl
  ]

  -- `_move_or_fallback` to a valid mailbox resolves MOVE if the server supports it, and else COPY,
  -- STORE and EXPUNGE in this order, each only after the ones before it succeeded. It returns
  -- exactly if the connection answers up to the first failure or to the end, and then with the error
  -- of that failure, or with success if all of them succeeded.
  pub move-Follows :
      (sequence_set : T.SequenceSet) (mbox : T.Mailbox) (uid : Bool) (c c' : TokioClient E)
      (r : Result (Unit {0}) (ClientError E))
      → (_move_or_fallback E sequence_set (ok mbox) uid c ≡ some (r, c'))
        ↔ Follows (move_plan (ext_move_supported c.state) sequence_set mbox uid) c r c'
  move-Follows sequence_set mbox uid c c' r = (
    λ h. run_plan_sound _ c (sym (move-run_plan sequence_set mbox uid c) ∙ h),
    λ f. move-run_plan sequence_set mbox uid c ∙ run_plan_complete f,
  )
