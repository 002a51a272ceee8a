-- ===== src/Client/Extensions.antt =====
-- What the tests of src/client/mod.rs on the capabilities of the server mean.
use imap_client.Prelude.{
  Bool, true, false, List, [], ◌∷◌, ◌≡◌, refl, ◌⊎◌, inl, inr, ◌↔◌, any, filter_map, Bool-cases, not,
  ◌||◌,
}
use imap_client.Imap.{ImapTypes, Capability, AuthMechanism}
use imap_client.Client.{
  Client, mechanism_discrete, mechanism_of, is_mechanism, is_login_disabled,
  supported_auth_mechanisms, supports_auth_mechanism, login_supported, is_enable,
  ext_enable_supported, is_sasl_ir, ext_sasl_ir_supported, is_id, ext_id_supported, is_uidplus,
  ext_uidplus_supported, is_sort, ext_sort_supported, is_thread, ext_thread_supported, is_idle,
  ext_idle_supported, is_binary, ext_binary_supported, is_move, ext_move_supported, is_condstore,
  ext_condstore_supported,
}

-- Some element meets `P`.
abbrev pub Exists : {A : Type 0} → (A → Type 0) → List A → Type 0
Exists P [] = ⊥
Exists P (x ∷ xs) = P x ⊎ Exists P xs

module _ {b : Bool} {P : Type 0} (h : (b ≡ true) ↔ P) where
  or_iff : {c : Bool} {Q : Type 0} → (c ≡ true) ↔ Q → (b || c ≡ true) ↔ (P ⊎ Q)
  or_iff {c} {Q} k = elim (Bool-cases b) [
    | inl e ↦ (λ _. inl (h.0 e), λ _. rw e refl)
    | inr e ↦ (
      λ found. inr (k.0 (rw e at found)),
      elim [ inl hit ↦ absurd (apart (h.1 hit) e) | inr later ↦ rw e (k.1 later) ],
    )
  ]
    where
      apart : b ≡ true → b ≡ false → ⊥
      apart e e' = cc

  not_iff : (not b ≡ true) ↔ (¬ P)
  not_iff = elim (Bool-cases b) [
    | inl e ↦ (λ n p. cc, λ n. absurd (n (h.0 e)))
    | inr e ↦ (λ _ p. apart (h.1 p) e, λ _. rw e refl)
  ]
    where
      apart : b ≡ true → b ≡ false → ⊥
      apart e e' = cc

any-Exists :
    {A : Type 0} (p : A → Bool) (P : A → Type 0)
    → ((x : A) → (p x ≡ true) ↔ P x)
    → (xs : List A) → (any p xs ≡ true) ↔ Exists P xs
any-Exists p P h [] = (λ e. cc, λ e. absurd e)
any-Exists p P h (x ∷ xs) = or_iff (h x) (any-Exists p P h xs)

-- The extensions that the client asks for.
pub data Extension : Type 0 where
  enable sasl_ir id uidplus sort thread idle binary move condstore : Extension

module _ {T : ImapTypes} where
  -- The test of the client for an extension, on one capability.
  abbrev test : Extension → Capability T → Bool
  test enable c = is_enable c
  test sasl_ir c = is_sasl_ir c
  test id c = is_id c
  test uidplus c = is_uidplus c
  test sort c = is_sort c
  test thread c = is_thread c
  test idle c = is_idle c
  test binary c = is_binary c
  test move c = is_move c
  test condstore c = is_condstore c

  -- The capability that stands for an extension; SORT and THREAD have an argument.
  abbrev pub Advertises : Extension → Capability T → Type 0
  Advertises enable c = c ≡ Capability.enable
  Advertises sasl_ir c = c ≡ Capability.sasl_ir
  Advertises id c = c ≡ Capability.id
  Advertises uidplus c = c ≡ Capability.uid_plus
  Advertises sort c = (x : T.Other) × (c ≡ Capability.sort x)
  Advertises thread c = (x : T.Other) × (c ≡ Capability.thread x)
  Advertises idle c = c ≡ Capability.idle
  Advertises binary c = c ≡ Capability.binary
  Advertises move c = c ≡ Capability.move
  Advertises condstore c = c ≡ Capability.cond_store

  test-Advertises : (e : Extension) (c : Capability T) → (test e c ≡ true) ↔ Advertises e c
  test-Advertises enable Capability.enable = (λ _. refl, λ _. refl)
  test-Advertises enable _ = (λ e. cc, λ e. cc)
  test-Advertises sasl_ir Capability.sasl_ir = (λ _. refl, λ _. refl)
  test-Advertises sasl_ir _ = (λ e. cc, λ e. cc)
  test-Advertises id Capability.id = (λ _. refl, λ _. refl)
  test-Advertises id _ = (λ e. cc, λ e. cc)
  test-Advertises uidplus Capability.uid_plus = (λ _. refl, λ _. refl)
  test-Advertises uidplus _ = (λ e. cc, λ e. cc)
  test-Advertises sort (Capability.sort x) = (λ _. (x, refl), λ _. refl)
  test-Advertises sort _ = (λ e. cc, λ e. let h = e.1 in cc)
  test-Advertises thread (Capability.thread x) = (λ _. (x, refl), λ _. refl)
  test-Advertises thread _ = (λ e. cc, λ e. let h = e.1 in cc)
  test-Advertises idle Capability.idle = (λ _. refl, λ _. refl)
  test-Advertises idle _ = (λ e. cc, λ e. cc)
  test-Advertises binary Capability.binary = (λ _. refl, λ _. refl)
  test-Advertises binary _ = (λ e. cc, λ e. cc)
  test-Advertises move Capability.move = (λ _. refl, λ _. refl)
  test-Advertises move _ = (λ e. cc, λ e. cc)
  test-Advertises condstore Capability.cond_store = (λ _. refl, λ _. refl)
  test-Advertises condstore _ = (λ e. cc, λ e. cc)

  is_mechanism_iff : (m x : AuthMechanism T) → (is_mechanism m (Capability.auth x) ≡ true) ↔ (x ≡ m)
  unfolding is_mechanism
  is_mechanism_iff m x =
      elim (mechanism_discrete x m)
        as (λ d. ((elim d [ yes _ ↦ true | no _ ↦ false ]) ≡ true) ↔ (x ≡ m)) [
          | yes e ↦ (λ _. e, λ _. refl)
          | no n ↦ (λ e. cc, λ e. absurd (n e))
        ]

  mechanism-Advertises :
      (m : AuthMechanism T) (cs : List (Capability T))
      → (any (is_mechanism m) cs ≡ true) ↔ Exists (λ x. x ≡ m) (filter_map mechanism_of cs)
  unfolding is_mechanism filter_map
  mechanism-Advertises m [] = (λ e. cc, λ e. absurd e)
  mechanism-Advertises m (Capability.auth x ∷ cs) =
      or_iff (is_mechanism_iff m x) (mechanism-Advertises m cs)
  mechanism-Advertises m (_ ∷ cs) = mechanism-Advertises m cs

  is_login_disabled-Advertises :
      (c : Capability T) → (is_login_disabled c ≡ true) ↔ (c ≡ Capability.login_disabled)
  is_login_disabled-Advertises Capability.login_disabled = (λ _. refl, λ _. refl)
  is_login_disabled-Advertises _ = (λ e. cc, λ e. cc)

module _ {T : ImapTypes} {Res : Type 0} (self : Client T Res) where
  -- The method of the client that asks for an extension.
  abbrev pub ext_supported : Extension → Bool
  ext_supported enable = ext_enable_supported self
  ext_supported sasl_ir = ext_sasl_ir_supported self
  ext_supported id = ext_id_supported self
  ext_supported uidplus = ext_uidplus_supported self
  ext_supported sort = ext_sort_supported self
  ext_supported thread = ext_thread_supported self
  ext_supported idle = ext_idle_supported self
  ext_supported binary = ext_binary_supported self
  ext_supported move = ext_move_supported self
  ext_supported condstore = ext_condstore_supported self

  -- Each method `ext_..._supported` is true exactly if the saved capabilities have the capability
  -- of that extension, with any argument in the case of SORT and THREAD.
  pub ext_supported-Advertises :
      (e : Extension) → (ext_supported e ≡ true) ↔ Exists (Advertises e) self.capabilities
  unfolding ext_enable_supported ext_sasl_ir_supported ext_id_supported ext_uidplus_supported
      ext_sort_supported ext_thread_supported ext_idle_supported ext_binary_supported
      ext_move_supported ext_condstore_supported
  ext_supported-Advertises enable = any-Exists _ _ (test-Advertises enable) self.capabilities
  ext_supported-Advertises sasl_ir = any-Exists _ _ (test-Advertises sasl_ir) self.capabilities
  ext_supported-Advertises id = any-Exists _ _ (test-Advertises id) self.capabilities
  ext_supported-Advertises uidplus = any-Exists _ _ (test-Advertises uidplus) self.capabilities
  ext_supported-Advertises sort = any-Exists _ _ (test-Advertises sort) self.capabilities
  ext_supported-Advertises thread = any-Exists _ _ (test-Advertises thread) self.capabilities
  ext_supported-Advertises idle = any-Exists _ _ (test-Advertises idle) self.capabilities
  ext_supported-Advertises binary = any-Exists _ _ (test-Advertises binary) self.capabilities
  ext_supported-Advertises move = any-Exists _ _ (test-Advertises move) self.capabilities
  ext_supported-Advertises condstore = any-Exists _ _ (test-Advertises condstore) self.capabilities

  -- An authentication mechanism is supported exactly if it is among the listed mechanisms, and
  -- LOGIN exactly if LOGINDISABLED is not among the saved capabilities.
  pub login-or-mechanism :
      ((m : AuthMechanism T)
        → (supports_auth_mechanism self m ≡ true)
          ↔ Exists (λ x. x ≡ m) (supported_auth_mechanisms self))
      × ((login_supported self ≡ true)
          ↔ (¬ Exists (λ c. c ≡ Capability.login_disabled) self.capabilities))
  unfolding supports_auth_mechanism supported_auth_mechanisms login_supported
  login-or-mechanism = (
    λ m. mechanism-Advertises m self.capabilities,
    not_iff (any-Exists _ _ is_login_disabled-Advertises self.capabilities),
  )
