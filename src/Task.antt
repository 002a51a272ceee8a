-- ===== src/Task.antt =====
-- The traits `Task` and `TaskAny` of src/tasks/mod.rs.
--
-- A type that implements `Task` is a value of the record `Task`: its state `Self` and its methods.
-- A `&mut self` method returns the state behind its result. The program's `unwrap` in
-- `command_body` of `AuthenticateTask` may panic, so `command_body` returns an `Option`.
--
-- `Box<dyn TaskAny>` and `Box<dyn Any>` need the types that exist at run time: `Registry` has a
-- code for each type that implements `Task` and for each output type, which plays `TypeId`.
pub mod Feed
use mathlib.Core.HLevel.{hedberg}
use mathlib.Core.Logic.{dite, dif_pos}
use mathlib.Core.Path.{subst_refl}
use imap_client.Prelude.{Option, some, none, ◌≡◌, refl, subst, ap, ◌∙◌, Result, err}
use imap_client.Imap.{
  ImapTypes, CommandBody, Data, StatusBody, CommandContinuationRequest, AuthenticateData, Bye,
}

pub record Task (T : ImapTypes) (Output : Type 0) : Type 1 where
  pub Self : Type 0
  pub command_body : Self → Option (CommandBody T)
  pub process_data : Self → Data T → Option (Data T) × Self
  pub process_untagged : Self → StatusBody T → Option (StatusBody T) × Self
  pub process_continuation_request :
      Self → CommandContinuationRequest T → Option (CommandContinuationRequest T) × Self
  pub process_continuation_request_authenticate :
      Self
      → CommandContinuationRequest T
      → Result (AuthenticateData T) (CommandContinuationRequest T) × Self
  pub process_bye : Self → Bye T → Option (Bye T) × Self
  pub process_tagged : Self → StatusBody T → Output

-- The bodies that the trait provides: hand the response back and change nothing.
module _ {Self Response : Type 0} where
  abbrev pub process_default : Self → Response → Option Response × Self
  process_default self response = (some response, self)

  abbrev pub process_authenticate_default :
      {A : Type 0} → Self → Response → Result A Response × Self
  process_authenticate_default self response = (err response, self)

pub record Registry (T : ImapTypes) : Type 1 where
  pub TaskType : Type 0
  pub OutputType : Type 0
  pub output_type_discrete : Discrete OutputType
  pub Output : OutputType → Type 0
  pub output_type : TaskType → OutputType
  pub task : (t : TaskType) → Task T (Output (output_type t))

module _ {T : ImapTypes} (R : Registry T) where
  open R use {TaskType, OutputType, output_type_discrete, Output, output_type, task}

  -- `Box<dyn TaskAny>`
  pub record TaskAny : Type 0 where
    pub type : TaskType
    pub self : (task type).Self

  -- `Box<dyn Any + Send>`
  pub record Any : Type 0 where
    pub type : OutputType
    pub value : Output type

  -- `impl<T: Task> TaskAny for T`: each method calls that of `T`.
  abbrev with_self : {A : Type 0} (t : TaskType) → A × (task t).Self → A × TaskAny
  with_self t (a, self) = (a, record { type = t; self = self })

  unfoldable pub process_data : TaskAny → Data T → Option (Data T) × TaskAny
  process_data b d = with_self b.type ((task b.type).process_data b.self d)

  unfoldable pub process_untagged : TaskAny → StatusBody T → Option (StatusBody T) × TaskAny
  process_untagged b s = with_self b.type ((task b.type).process_untagged b.self s)

  unfoldable pub process_continuation_request :
      TaskAny → CommandContinuationRequest T → Option (CommandContinuationRequest T) × TaskAny
  process_continuation_request b c =
      with_self b.type ((task b.type).process_continuation_request b.self c)

  unfoldable pub process_continuation_request_authenticate :
      TaskAny
      → CommandContinuationRequest T
      → Result (AuthenticateData T) (CommandContinuationRequest T) × TaskAny
  process_continuation_request_authenticate b c =
      with_self b.type ((task b.type).process_continuation_request_authenticate b.self c)

  unfoldable pub process_bye : TaskAny → Bye T → Option (Bye T) × TaskAny
  process_bye b s = with_self b.type ((task b.type).process_bye b.self s)

  unfoldable pub process_tagged : TaskAny → StatusBody T → Any
  process_tagged b s = record {
    type = output_type b.type;
    value = (task b.type).process_tagged b.self s;
  }

  -- `Box<dyn Any>::downcast`; `none` stands for the error.
  unfoldable pub downcast : (t : OutputType) → Any → Option (Output t)
  downcast t a =
      dite (output_type_discrete a.type t) (λ e. some (subst Output e a.value)) (λ _. none)

  -- What has the type comes out.
  pub downcast_typed :
      (t : OutputType) (a : Any) (e : a.type ≡ t) → downcast t a ≡ some (subst Output e a.value)
  unfolding downcast
  downcast_typed t a e =
      dif_pos (output_type_discrete a.type t) (hedberg output_type_discrete a.type t) e _ _

  -- What was boxed as a `t` is a `t`.
  pub downcast_self :
      (t : OutputType) (v : Output t) → downcast t (record { type = t; value = v }) ≡ some v
  downcast_self t v =
      downcast_typed t (record { type = t; value = v }) refl ∙ ap some (subst_refl Output v)
