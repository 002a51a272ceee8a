-- ===== src/Client.antt =====
-- src/client/mod.rs: the state of a client, and what it knows of its server.
pub mod Extensions
pub mod FetchOrder
pub mod Verifier
use imap_client.Prelude.{
  ℕ, ◌*◌, Bool, true, false, Option, none, some, List, [], ◌∷◌, filter_map, any, not,
}
use imap_client.Imap.{ImapTypes, Capability, AuthMechanism, Vec1}
use imap_client.Task.{Registry}
use imap_client.Scheduler.ClientNext.{ClientNext}
use imap_client.Resolver
use imap_client.Resolver.{Resolver}

-- `std::time::Duration`, in nanoseconds.
abbrev pub Duration : Type 0
Duration = ℕ

abbrev pub from_secs : ℕ → Duration
from_secs secs = secs * 1000000000

-- `resolver` has the type parameter, so that a connection may say how it resolves.
pub record Client (T : ImapTypes) (Resolver : Type 0) : Type 0 where
  pub resolver : Resolver
  pub capabilities : Vec1 (Capability T)
  pub idle_timeout : Duration
  pub condstore_enabled : Bool

module _ {T : ImapTypes} where
  -- `derive(PartialEq, Eq)` of `AuthMechanism`.
  unfoldable pub mechanism_discrete : Discrete (AuthMechanism T)
  mechanism_discrete = hlevel (T.other_discrete)

  -- The closures of the methods below: what they look for in a capability.
  abbrev pub mechanism_of : Capability T → Option (AuthMechanism T)
  mechanism_of (Capability.auth mechanism) = some mechanism
  mechanism_of _ = none

  unfoldable pub is_mechanism : AuthMechanism T → Capability T → Bool
  unfolding mechanism_discrete
  is_mechanism mechanism (Capability.auth m) = elim (mechanism_discrete m mechanism) [
    | yes _ ↦ true
    | no _ ↦ false
  ]
  is_mechanism mechanism _ = false

  abbrev pub is_login_disabled : Capability T → Bool
  is_login_disabled Capability.login_disabled = true
  is_login_disabled _ = false

  abbrev pub is_enable : Capability T → Bool
  is_enable Capability.enable = true
  is_enable _ = false

  abbrev pub is_sasl_ir : Capability T → Bool
  is_sasl_ir Capability.sasl_ir = true
  is_sasl_ir _ = false

  abbrev pub is_id : Capability T → Bool
  is_id Capability.id = true
  is_id _ = false

  abbrev pub is_uidplus : Capability T → Bool
  is_uidplus Capability.uid_plus = true
  is_uidplus _ = false

  abbrev pub is_sort : Capability T → Bool
  is_sort (Capability.sort _) = true
  is_sort _ = false

  abbrev pub is_thread : Capability T → Bool
  is_thread (Capability.thread _) = true
  is_thread _ = false

  abbrev pub is_idle : Capability T → Bool
  is_idle Capability.idle = true
  is_idle _ = false

  abbrev pub is_binary : Capability T → Bool
  is_binary Capability.binary = true
  is_binary _ = false

  abbrev pub is_move : Capability T → Bool
  is_move Capability.move = true
  is_move _ = false

  abbrev pub is_condstore : Capability T → Bool
  is_condstore Capability.cond_store = true
  is_condstore _ = false

-- `new`, on the resolver that it makes.
abbrev pub with_resolver : {T : ImapTypes} {Res : Type 0} → Res → Client T Res
with_resolver resolver = record {
  resolver = resolver;
  capabilities = Capability.imap4_rev1 ∷ [];
  idle_timeout = from_secs 300;
  condstore_enabled = false;
}

module _ {T : ImapTypes} {R : Registry T} {N : ClientNext T} where
  abbrev pub new : N.Client → N.TagGenerator → Client T (Resolver R N)
  new client tag_generator = with_resolver (Resolver.new client tag_generator)

module _ {T : ImapTypes} {Res : Type 0} (self : Client T Res) where
  abbrev pub get_idle_timeout : Duration
  get_idle_timeout = self.idle_timeout

  abbrev pub set_idle_timeout : Duration → Client T Res
  set_idle_timeout timeout = record self { idle_timeout = timeout }

  abbrev pub set_some_idle_timeout : Option Duration → Client T Res
  set_some_idle_timeout (some timeout) = set_idle_timeout timeout
  set_some_idle_timeout none = self

  abbrev pub with_idle_timeout : Duration → Client T Res
  with_idle_timeout timeout = set_idle_timeout timeout

  abbrev pub with_some_idle_timeout : Option Duration → Client T Res
  with_some_idle_timeout timeout = set_some_idle_timeout timeout

  -- `capabilities`
  abbrev get_capabilities : Vec1 (Capability T)
  get_capabilities = self.capabilities

  -- `capabilities_iter`, run to its end.
  abbrev pub capabilities_iter : List (Capability T)
  capabilities_iter = get_capabilities

  pub supported_auth_mechanisms : List (AuthMechanism T)
  supported_auth_mechanisms = filter_map mechanism_of capabilities_iter

  pub supports_auth_mechanism : AuthMechanism T → Bool
  supports_auth_mechanism mechanism = any (is_mechanism mechanism) capabilities_iter

  pub login_supported : Bool
  login_supported = not (any is_login_disabled capabilities_iter)

  unfoldable pub ext_enable_supported : Bool
  ext_enable_supported = any is_enable capabilities_iter

  unfoldable pub ext_sasl_ir_supported : Bool
  ext_sasl_ir_supported = any is_sasl_ir capabilities_iter

  unfoldable pub ext_id_supported : Bool
  ext_id_supported = any is_id capabilities_iter

  unfoldable pub ext_uidplus_supported : Bool
  ext_uidplus_supported = any is_uidplus capabilities_iter

  unfoldable pub ext_sort_supported : Bool
  ext_sort_supported = any is_sort capabilities_iter

  unfoldable pub ext_thread_supported : Bool
  ext_thread_supported = any is_thread capabilities_iter

  unfoldable pub ext_idle_supported : Bool
  ext_idle_supported = any is_idle capabilities_iter

  unfoldable pub ext_binary_supported : Bool
  ext_binary_supported = any is_binary capabilities_iter

  unfoldable pub ext_move_supported : Bool
  ext_move_supported = any is_move capabilities_iter

  unfoldable pub ext_condstore_supported : Bool
  ext_condstore_supported = any is_condstore capabilities_iter

  abbrev pub condstore_enabled : Bool
  condstore_enabled = self.condstore_enabled
