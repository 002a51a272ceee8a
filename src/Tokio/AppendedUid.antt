-- ===== src/Tokio/AppendedUid.antt =====
-- How `appenduid_or_fallback` of src/client/tokio.rs finds the message that it appended.
use imap_client.Prelude.{
  ℕ, false, Option, none, some, List, [], ◌∷◌, ◌≡◌, refl, sym, ap, ◌∙◌, ◌↔◌, subst, Result, ok, err,
}
use imap_client.Imap.{Flag, SearchKey}
use imap_client.Client.{ext_uidplus_supported}
use imap_client.Tasks.Select
use imap_client.Tokio.Api.{
  Environment, Method, TokioClient, ClientError, TryInto, after, ◌>>=◌, pure, panic,
}
use imap_client.Tokio.Commands.{select, search}
use imap_client.Tokio.Messages.{post_append_noop, post_append_check}
use imap_client.Tokio.Login.{append}
use imap_client.Tokio.Fallback.{
  first, appenduid_or_fallback, seq_or_noop, seq_or_check, found, uid_of_seq,
}

-- A method that succeeds.
abbrev pub Gives :
    {E : Environment} {A : Type 0} → Method E A → TokioClient E → A → TokioClient E → Type 0
Gives m c a c' = m c ≡ some (ok a, c')

-- A sequence succeeds only if its first step does, and then the rest.
after-ok :
    {E : Environment} {A B : Type 0} (f : A → Method E B)
    (o : Option (Result A (ClientError E) × TokioClient E)) {b : B} {c' : TokioClient E}
    → after {E = E} f o ≡ some (ok b, c')
    → (a : A) × (c₁ : TokioClient E) × (o ≡ some (ok a, c₁)) × (f a c₁ ≡ some (ok b, c'))
after-ok f none h = cc
after-ok f (some (ok a, c₁)) h = (a, c₁, refl, h)
after-ok f (some (err e, c₁)) h = cc

pure_injective :
    {E : Environment} {A : Type 0} {a b : A} {c c' : TokioClient E}
    → pure {E = E} a c ≡ some (ok b, c')
    → Path (A × TokioClient E) (a, c) (b, c')
pure_injective h = cc

module _ (E : Environment) where
  open E use {T}

  -- The number of the message: that of the EXISTS during APPEND, or else during NOOP, or else during
  -- CHECK.
  pub data Numbered : Option ℕ → TokioClient E → ℕ → TokioClient E → Type 0 where
    appended : {seq : ℕ} {c : TokioClient E} → Numbered (some seq) c seq c
    after_noop :
        {seq : ℕ} {c c' : TokioClient E}
        → Gives {E = E} (post_append_noop E) c (some seq) c'
        → Numbered none c seq c'
    after_check :
        {seq : ℕ} {c c' : TokioClient E} (c₁ : TokioClient E)
        → Gives {E = E} (post_append_noop E) c none c₁
        → Gives {E = E} (post_append_check E) c₁ (some seq) c'
        → Numbered none c seq c'

  -- The steps of the fallback: SELECT, APPEND, those for the number, and SEARCH for it.
  pub record Located (mailbox : TryInto E T.Mailbox) (flags : List (Flag T)) (message : List ℕ)
      (c : TokioClient E) (uid : Option ℕ) (c' : TokioClient E) : Type 0 where
    pub data_selected : Select.SelectDataUnvalidated T
    pub selected : TokioClient E
    pub selects : Gives {E = E} (select E mailbox) c data_selected selected
    pub exists : Option ℕ
    pub stored : TokioClient E
    pub appends : Gives {E = E} (append E mailbox flags message) selected exists stored
    pub seq : ℕ
    pub known : TokioClient E
    pub numbered : Numbered exists stored seq known
    pub set : T.SequenceSet
    pub valid : E.sequence_set_try_from_one seq ≡ ok set
    pub numbers : List ℕ
    pub searches : Gives {E = E} (search E (SearchKey.sequence_set set ∷ [])) known numbers c'
    pub is_first : first numbers ≡ uid

  -- A number that was there, and one that was found.
  number-Gives :
      (m : Method E (Option ℕ)) (c c₁ c' : TokioClient E) (n seq : ℕ)
      → Gives {E = E} m c (some n) c₁
      → Gives {E = E} (pure {E = E} n) c₁ seq c'
      → Gives {E = E} m c (some seq) c'
  number-Gives m c c₁ c' n seq e h = cc

  found-Gives :
      (m : Method E (Option ℕ)) (c c₁ c' : TokioClient E) (o : Option ℕ) (seq : ℕ)
      → Gives {E = E} m c o c₁
      → Gives {E = E} (found E o) c₁ seq c'
      → Gives {E = E} m c (some seq) c'
  found-Gives m c c₁ c' (some n) seq e h = number-Gives m c c₁ c' n seq e h
  found-Gives m c c₁ c' none seq e h = cc

  check-Numbered :
      (o : Option ℕ) (c c₁ c' : TokioClient E) (seq : ℕ)
      → Gives {E = E} (post_append_noop E) c o c₁
      → Gives {E = E} (seq_or_check E o) c₁ seq c'
      → Numbered none c seq c'
  check-Numbered (some n) c c₁ c' seq h k =
      Numbered.after_noop (number-Gives (post_append_noop E) c c₁ c' n seq h k)
  check-Numbered none c c₁ c' seq h k =
      let (o, c₂, e, f) = after-ok (found E) (post_append_check E c₁) k in
      Numbered.after_check c₁ h (found-Gives (post_append_check E) c₁ c₂ c' o seq e f)

  noop-Numbered :
      (o : Option ℕ) (c c' : TokioClient E) (seq : ℕ)
      → Gives {E = E} (seq_or_noop E o) c seq c'
      → Numbered o c seq c'
  noop-Numbered (some n) c c' seq h =
      subst (λ x. Numbered (some n) c x.0 x.1) (pure_injective h) Numbered.appended
  noop-Numbered none c c' seq h =
      let (o, c₁, e, f) = after-ok (seq_or_check E) (post_append_noop E c) h in
      check-Numbered o c c₁ c' seq e f

  Numbered-noop :
      {o : Option ℕ} {c c' : TokioClient E} {seq : ℕ}
      → Numbered o c seq c'
      → Gives {E = E} (seq_or_noop E o) c seq c'
  Numbered-noop Numbered.appended = refl
  Numbered-noop (Numbered.after_noop e) = rw e refl
  Numbered-noop (Numbered.after_check c₁ e f) = rw (e, f) refl

  abbrev search_for : (seq : ℕ) → Result T.SequenceSet E.ValidationError → Method E (List ℕ)
  search_for seq s = elim s [ ok set ↦ search E (SearchKey.sequence_set set ∷ []) | err e ↦ panic ]

  searched :
      (seq : ℕ) (c c' : TokioClient E) (numbers : List ℕ)
      (s : Result T.SequenceSet E.ValidationError)
      → E.sequence_set_try_from_one seq ≡ s
      → Gives {E = E} (search_for seq s) c numbers c'
      → (set : T.SequenceSet) × (E.sequence_set_try_from_one seq ≡ ok set)
        × Gives {E = E} (search E (SearchKey.sequence_set set ∷ [])) c numbers c'
  searched seq c c' numbers (ok set) e h = (set, e, h)
  searched seq c c' numbers (err x) e h = cc

  -- The fallback after APPEND.
  abbrev locate : Option ℕ → Method E (Option ℕ)
  locate exists = do seq ← seq_or_noop E exists; numbers ← uid_of_seq E seq; pure (first numbers)

  fallback-locate :
      (mailbox : TryInto E T.Mailbox) (flags : List (Flag T)) (message : List ℕ) (c : TokioClient E)
      → ext_uidplus_supported c.state ≡ false
      → appenduid_or_fallback E mailbox flags message c
        ≡ (select E mailbox >>= λ _. append E mailbox flags message >>= locate) c
  unfolding appenduid_or_fallback
  fallback-locate mailbox flags message c h = rw h refl

  module _ (mailbox : TryInto E T.Mailbox) (flags : List (Flag T)) (message : List ℕ)
      (c c' : TokioClient E) (uid : Option ℕ) (lacks : ext_uidplus_supported c.state ≡ false) where
    Located-fallback :
        Located mailbox flags message c uid c'
        → appenduid_or_fallback E mailbox flags message c ≡ some (ok uid, c')
    Located-fallback l =
        fallback-locate mailbox flags message c lacks
        ∙ rw
            (
              l.selects,
              l.appends,
              Numbered-noop l.numbered,
              uid_of_seq,
              l.valid,
              l.searches,
              l.is_first,
            )
            refl

    fallback-Located :
        appenduid_or_fallback E mailbox flags message c ≡ some (ok uid, c')
        → Located mailbox flags message c uid c'
    fallback-Located e =
        let (selected, c₁, selects, e₁) =
          after-ok _ (select E mailbox c)
            (sym (fallback-locate mailbox flags message c lacks) ∙ e) in
        let (exists, c₂, appends, e₂) = after-ok locate (append E mailbox flags message c₁) e₁ in
        let (seq, c₃, numbers, e₃) = after-ok _ (seq_or_noop E exists c₂) e₂ in
        let (found, c₄, searches, e₄) = after-ok _ (uid_of_seq E seq c₃) e₃ in
        let ends = pure_injective e₄ in
        let (set, valid, search) =
          searched seq c₃ c' found (E.sequence_set_try_from_one seq) refl
            (subst (λ x. uid_of_seq E seq c₃ ≡ some (ok found, x)) (ap (λ x. x.1) ends) searches) in
        record {
          data_selected = selected;
          selected = c₁;
          selects = selects;
          exists = exists;
          stored = c₂;
          appends = appends;
          seq = seq;
          known = c₃;
          numbered = noop-Numbered exists c₂ c₃ seq numbers;
          set = set;
          valid = valid;
          numbers = found;
          searches = search;
          is_first = ap (λ x. x.0) ends;
        }

    -- Where the server lacks UIDPLUS, `appenduid_or_fallback` succeeds exactly if SELECT and then
    -- APPEND succeed, the EXISTS of APPEND, or else of a NOOP, or else of a CHECK after it gives a
    -- number, and a SEARCH for the message of that number succeeds. It then returns the first number
    -- that this SEARCH found, which is no UID SEARCH.
    pub appenduid_or_fallback-Located :
        (appenduid_or_fallback E mailbox flags message c ≡ some (ok uid, c'))
        ↔ Located mailbox flags message c uid c'
    appenduid_or_fallback-Located = (fallback-Located, Located-fallback)
