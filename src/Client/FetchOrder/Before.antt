-- ===== src/Client/FetchOrder/Before.antt =====
-- What it means that a message comes before another by some criteria, said without the comparisons
-- of src/client/tokio.rs, and that these agree.
use Prim.Native.Nat.{compare, lt, eq}
use imap_client.Prelude.{
  ℕ, Bool, true, false, Option, none, some, List, [], ◌∷◌, ◌≡◌, refl, ap, ◌∙◌, ◌<◌, ◌⊎◌, inl, inr,
  find_map, ◌≢◌, subst, All, if◌then◌else◌, arith,
}
use imap_client.Prelude.Compare.{Comparison, reverse, option_cmp, bytes_cmp}
use imap_client.Prelude.Slices.Laws.{Sorted}
use imap_client.Imap.{ImapTypes, MessageDataItem, SortKey, SortCriterion, Vec1}
use imap_client.Client.FetchOrder.{
  Keys, internal_date_of, date_of, size_of, subject_of, cmp_fetch_items, cmp_fetch_items-IsTotal,
  by_criterion, sort_cmp,
}

-- A value that is missing is less than any other.
abbrev Less : {A : Type 0} → (A → A → Type 0) → Option A → Option A → Type 0
Less R none none = ⊥
Less R none (some y) = Unit
Less R (some x) none = ⊥
Less R (some x) (some y) = R x y

abbrev Same : {A : Type 0} → (A → A → Type 0) → Option A → Option A → Type 0
Same R none none = Unit
Same R (some x) (some y) = R x y
Same R _ _ = ⊥

-- The order of the bytes of two texts.
abbrev BytesLess : List ℕ → List ℕ → Type 0
BytesLess [] [] = ⊥
BytesLess [] (y ∷ ys) = Unit
BytesLess (x ∷ xs) [] = ⊥
BytesLess (x ∷ xs) (y ∷ ys) = (x < y) ⊎ ((x ≡ y) × BytesLess xs ys)

module _ {T : ImapTypes} (K : Keys T) where
  -- The values in the items of a message: of each kind the first that there is.
  abbrev arrival_in : List (MessageDataItem T) → Option T.DateTime
  arrival_in [] = none
  arrival_in (MessageDataItem.internal_date date ∷ items) = some date
  arrival_in (_ ∷ items) = arrival_in items

  abbrev size_in : List (MessageDataItem T) → Option ℕ
  size_in [] = none
  size_in (MessageDataItem.rfc822_size size ∷ items) = some size
  size_in (_ ∷ items) = size_in items

  abbrev date_in : List (MessageDataItem T) → Option (List ℕ)
  date_in [] = none
  date_in (MessageDataItem.envelope envelope ∷ items) =
      let rest = date_in items in
      elim (K.n_string_bytes envelope.date) [ some date ↦ some date | none ↦ rest ]
  date_in (_ ∷ items) = date_in items

  abbrev subject_in : List (MessageDataItem T) → Option (List ℕ)
  subject_in [] = none
  subject_in (MessageDataItem.envelope envelope ∷ items) =
      let rest = subject_in items in
      elim (K.n_string_bytes envelope.subject) [ some subject ↦ some subject | none ↦ rest ]
  subject_in (_ ∷ items) = subject_in items

  -- By a key, a message is lower than another, or tied with it.
  abbrev Lower : SortKey → List (MessageDataItem T) → List (MessageDataItem T) → Type 0
  Lower SortKey.arrival a b = Less (λ x y. K.date_time_cmp x y ≡ lt) (arrival_in a) (arrival_in b)
  Lower SortKey.date a b = Less BytesLess (date_in a) (date_in b)
  Lower SortKey.size a b = Less (λ x y. x < y) (size_in a) (size_in b)
  Lower SortKey.subject a b = Less BytesLess (subject_in a) (subject_in b)
  Lower _ a b = ⊥

  abbrev Tied : SortKey → List (MessageDataItem T) → List (MessageDataItem T) → Type 0
  Tied SortKey.arrival a b = Same (λ x y. K.date_time_cmp x y ≡ eq) (arrival_in a) (arrival_in b)
  Tied SortKey.date a b = date_in a ≡ date_in b
  Tied SortKey.size a b = size_in a ≡ size_in b
  Tied SortKey.subject a b = subject_in a ≡ subject_in b
  Tied _ a b = Unit

  -- By the first criterion that does not tie them a message is the lower one, or the higher one if
  -- the criterion is reversed; and by the date where all criteria tie them.
  abbrev Before : List SortCriterion → List (MessageDataItem T) → List (MessageDataItem T) → Type 0
  Before [] a b = Lower SortKey.date a b
  Before (criterion ∷ criteria) a b =
      (if criterion.reverse then Lower criterion.key b a else Lower criterion.key a b)
      ⊎ (Tied criterion.key a b × Before criteria a b)

  arrival_lem :
      (items : List (MessageDataItem T)) → find_map (internal_date_of K) items ≡ arrival_in items
  arrival_lem [] = refl
  arrival_lem (MessageDataItem.internal_date date ∷ items) = refl
  arrival_lem (_ ∷ items) = arrival_lem items

  size_lem : (items : List (MessageDataItem T)) → find_map (size_of K) items ≡ size_in items
  size_lem [] = refl
  size_lem (MessageDataItem.rfc822_size size ∷ items) = refl
  size_lem (_ ∷ items) = size_lem items

  date_lem : (items : List (MessageDataItem T)) → find_map (date_of K) items ≡ date_in items
  date_lem [] = refl
  date_lem (MessageDataItem.envelope e ∷ items) = ground (arith, date_lem items)
  date_lem (_ ∷ items) = date_lem items

  subject_lem :
      (items : List (MessageDataItem T)) → find_map (subject_of K) items ≡ subject_in items
  subject_lem [] = refl
  subject_lem (MessageDataItem.envelope e ∷ items) = ground (arith, subject_lem items)
  subject_lem (_ ∷ items) = subject_lem items

  bytes-lt : (xs ys : List ℕ) → BytesLess xs ys → bytes_cmp xs ys ≡ lt
  bytes-lt [] [] h = absurd h
  bytes-lt [] (y ∷ ys) h = refl
  bytes-lt (x ∷ xs) [] h = absurd h
  bytes-lt (x ∷ xs) (y ∷ ys) (inl h) = ground arith
  bytes-lt (x ∷ xs) (y ∷ ys) (inr (e, h)) = ground (arith, bytes-lt xs ys h)

  bytes-eq : (xs : List ℕ) → bytes_cmp xs xs ≡ eq
  bytes-eq [] = refl
  bytes-eq (x ∷ xs) = ground (arith, bytes-eq xs)

  module _ {A : Type 0} (c : Comparison A) (R : A → A → Type 0) where
    Less-lt :
        ((x y : A) → R x y → c x y ≡ lt) → (o p : Option A) → Less R o p → option_cmp c o p ≡ lt
    Less-lt f none none h = absurd h
    Less-lt f none (some y) h = refl
    Less-lt f (some x) none h = absurd h
    Less-lt f (some x) (some y) h = f x y h

    Same-eq :
        ((x y : A) → R x y → c x y ≡ eq) → (o p : Option A) → Same R o p → option_cmp c o p ≡ eq
    Same-eq f none none h = refl
    Same-eq f none (some y) h = absurd h
    Same-eq f (some x) none h = absurd h
    Same-eq f (some x) (some y) h = f x y h

  equal-eq :
      {A : Type 0} (c : Comparison A)
      → ((x : A) → c x x ≡ eq)
      → (o p : Option A) → o ≡ p
      → option_cmp c o p ≡ eq
  equal-eq c f o p h = subst (λ p. option_cmp c o p ≡ eq) h (go o)
    where
      go : (o : Option _) → option_cmp c o o ≡ eq
      go none = refl
      go (some x) = f x

  size-lt : (x y : ℕ) → x < y → compare x y ≡ lt
  size-lt x y h = ground arith

  size-eq : (x : ℕ) → compare x x ≡ eq
  size-eq x = ground arith

  Lower-lt :
      (key : SortKey) (a b : Vec1 (MessageDataItem T))
      → Lower key a b
      → cmp_fetch_items K key a b ≡ lt
  unfolding cmp_fetch_items
  Lower-lt SortKey.arrival a b h =
      rw (arrival_lem a, arrival_lem b) (Less-lt K.date_time_cmp _ (λ x y r. r) _ _ h)
  Lower-lt SortKey.date a b h =
      rw (date_lem a, date_lem b) (Less-lt bytes_cmp BytesLess bytes-lt _ _ h)
  Lower-lt SortKey.size a b h =
      rw (size_lem a, size_lem b) (Less-lt compare (λ x y. x < y) size-lt _ _ h)
  Lower-lt SortKey.subject a b h =
      rw (subject_lem a, subject_lem b) (Less-lt bytes_cmp BytesLess bytes-lt _ _ h)
  Lower-lt _ a b h = absurd h

  Tied-eq :
      (key : SortKey) (a b : Vec1 (MessageDataItem T))
      → Tied key a b
      → cmp_fetch_items K key a b ≡ eq
  unfolding cmp_fetch_items
  Tied-eq SortKey.arrival a b h =
      rw (arrival_lem a, arrival_lem b) (Same-eq K.date_time_cmp _ (λ x y r. r) _ _ h)
  Tied-eq SortKey.date a b h = rw (date_lem a, date_lem b) (equal-eq bytes_cmp bytes-eq _ _ h)
  Tied-eq SortKey.size a b h = rw (size_lem a, size_lem b) (equal-eq compare size-eq _ _ h)
  Tied-eq SortKey.subject a b h =
      rw (subject_lem a, subject_lem b) (equal-eq bytes_cmp bytes-eq _ _ h)
  Tied-eq _ a b h = refl

  turned-lt :
      (turned : Bool) (key : SortKey) (a b : Vec1 (MessageDataItem T))
      → (if turned then Lower key b a else Lower key a b)
      → (if turned then reverse (cmp_fetch_items K key a b) else cmp_fetch_items K key a b) ≡ lt
  turned-lt true key a b h =
      ap reverse ((cmp_fetch_items-IsTotal K key).swapped b a)
      ∙ ap (λ o. reverse (reverse o)) (Lower-lt key b a h)
  turned-lt false key a b h = Lower-lt key a b h

  criterion-lt :
      (criterion : SortCriterion) (a b : Vec1 (MessageDataItem T))
      → (if criterion.reverse then Lower criterion.key b a else Lower criterion.key a b)
      → by_criterion K criterion a b ≡ lt
  unfolding by_criterion
  criterion-lt criterion a b h = turned-lt criterion.reverse criterion.key a b h

  criterion-eq :
      (criterion : SortCriterion) (a b : Vec1 (MessageDataItem T))
      → Tied criterion.key a b
      → by_criterion K criterion a b ≡ eq
  unfolding by_criterion
  criterion-eq criterion a b h = ground (arith, Tied-eq criterion.key a b h)

  -- A message that comes before another is less by the comparison of the fallback.
  Before-lt :
      (criteria : List SortCriterion) (a b : Vec1 (MessageDataItem T))
      → Before criteria a b
      → sort_cmp K criteria a b ≡ lt
  unfolding sort_cmp
  Before-lt [] a b h = Lower-lt SortKey.date a b h
  Before-lt (criterion ∷ criteria) a b (inl h) = rw (criterion-lt criterion a b h) refl
  Before-lt (criterion ∷ criteria) a b (inr (t, h)) =
      rw (criterion-eq criterion a b t) (Before-lt criteria a b h)

  -- No message comes before one that stands in front of it.
  abbrev pub InOrder : List SortCriterion → List (Vec1 (MessageDataItem T)) → Type 0
  InOrder criteria [] = Unit
  InOrder criteria (a ∷ messages) =
      All (λ b. ¬ Before criteria b a) messages × InOrder criteria messages

  pub Sorted-InOrder :
      (criteria : List SortCriterion) (messages : List (Vec1 (MessageDataItem T)))
      → Sorted (sort_cmp K criteria) messages
      → InOrder criteria messages
  Sorted-InOrder criteria [] s = tt
  Sorted-InOrder criteria (a ∷ messages) (above, s) =
      (behind messages above, Sorted-InOrder criteria messages s)
    where
      behind :
          (bs : List (Vec1 (MessageDataItem T)))
          → All (λ b. sort_cmp K criteria b a ≢ lt) bs
          → All (λ b. ¬ Before criteria b a) bs
      behind [] n = tt
      behind (b ∷ bs) (n, ns) = (λ h. n (Before-lt criteria b a h), behind bs ns)
