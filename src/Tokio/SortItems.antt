-- ===== src/Tokio/SortItems.antt =====
-- The items that `_sort_or_fallback` of src/client/tokio.rs fetches to sort by them.
use imap_client.Prelude.{
  Bool, true, false, some, List, [], ◌∷◌, ◌++◌, ◌≡◌, refl, ◌⊎◌, inl, inr, any, ◌||◌, filter_map,
  Option-cases, Bool-cases, All,
}
use imap_client.Imap.{ImapTypes, MessageDataItemName, SortCriterion, SortKey}
use imap_client.Tokio.SortFallback.{is_name, name_discrete, push_new, push_all, item_of}

-- Membership, by recursion.
abbrev pub Has : {A : Type 0} → A → List A → Type 0
Has x [] = ⊥
Has x (y ∷ ys) = (y ≡ x) ⊎ Has x ys

Has-front : {A : Type 0} (x : A) (xs ys : List A) → Has x xs → Has x (xs ++ ys)
Has-front x [] ys h = absurd h
Has-front x (y ∷ xs) ys (inl e) = inl e
Has-front x (y ∷ xs) ys (inr h) = inr (Has-front x xs ys h)

Has-last : {A : Type 0} (x : A) (xs : List A) → Has x (xs ++ x ∷ [])
Has-last x [] = inl refl
Has-last x (y ∷ xs) = inr (Has-last x xs)

module _ {T : ImapTypes} where
  -- The item that has the value of a key is among the items.
  abbrev pub Covers : List (MessageDataItemName T) → SortKey → Type 0
  Covers items SortKey.arrival = Has MessageDataItemName.internal_date items
  Covers items SortKey.date = Has MessageDataItemName.envelope items
  Covers items SortKey.size = Has MessageDataItemName.rfc822_size items
  Covers items SortKey.subject = Has MessageDataItemName.envelope items
  Covers items _ = Unit

  any-Has :
      (x : MessageDataItemName T) (xs : List (MessageDataItemName T))
      → any (is_name x) xs ≡ true
      → Has x xs
  any-Has x [] h = cc
  any-Has x (y ∷ xs) h = go (name_discrete y x) (any-Has x xs) h
    where
      go :
          (d : Dec (y ≡ x))
          → (any (is_name x) xs ≡ true → Has x xs)
          → ((elim d [ yes _ ↦ true | no _ ↦ false ]) || any (is_name x) xs) ≡ true
          → Has x (y ∷ xs)
      go (yes e) rest h = inl e
      go (no n) rest h = inr (rest h)

  push_new-Has :
      (x : MessageDataItemName T) (xs : List (MessageDataItemName T)) → Has x (push_new xs x)
  push_new-Has x xs = elim (Bool-cases (any (is_name x) xs)) [
    | inl e ↦ rw e (any-Has x xs e)
    | inr e ↦ rw e (Has-last x xs)
  ]

  push_new-keeps :
      (x y : MessageDataItemName T) (xs : List (MessageDataItemName T))
      → Has x xs
      → Has x (push_new xs y)
  push_new-keeps x y xs h = elim (Bool-cases (any (is_name y) xs)) [
    | inl e ↦ rw e h
    | inr e ↦ rw e (Has-front x xs _ h)
  ]

  push_all-keeps :
      (x : MessageDataItemName T) (ys xs : List (MessageDataItemName T))
      → Has x xs
      → Has x (push_all ys xs)
  push_all-keeps x [] xs h = h
  push_all-keeps x (y ∷ ys) xs h = push_all-keeps x ys (push_new xs y) (push_new-keeps x y xs h)

  push_all-item :
      (x : MessageDataItemName T) (ys xs : List (MessageDataItemName T))
      → Has x ys
      → Has x (push_all ys xs)
  push_all-item x [] xs h = absurd h
  push_all-item x (y ∷ ys) xs (inl e) = push_all-keeps x ys _ (rw e (push_new-Has x xs))
  push_all-item x (y ∷ ys) xs (inr h) = push_all-item x ys (push_new xs y) h

  Covers-key :
      (items : List (MessageDataItemName T)) (reverse : Bool) (key : SortKey)
      → ((x : MessageDataItemName T)
          → item_of (record { reverse = reverse; key = key }) ≡ some x
          → Has x items)
      → Covers items key
  Covers-key items reverse SortKey.arrival f = f _ refl
  Covers-key items reverse SortKey.date f = f _ refl
  Covers-key items reverse SortKey.size f = f _ refl
  Covers-key items reverse SortKey.subject f = f _ refl
  Covers-key items reverse _ f = tt

  item-Has :
      (criterion : SortCriterion) (criteria : List SortCriterion) (x : MessageDataItemName T)
      → item_of criterion ≡ some x
      → Has x (filter_map item_of (criterion ∷ criteria))
  unfolding filter_map
  item-Has criterion criteria x e = rw e (inl refl)

  later-Has :
      (criterion : SortCriterion) (criteria : List SortCriterion) (x : MessageDataItemName T)
      → Has x (filter_map item_of criteria)
      → Has x (filter_map item_of (criterion ∷ criteria))
  unfolding filter_map
  later-Has criterion criteria x h = elim (Option-cases (item_of {T = T} criterion)) [
    | inl e ↦ rw e h
    | inr (y, e) ↦ rw e (inr h)
  ]

  Covers-from :
      (items : List (MessageDataItemName T)) (criteria : List SortCriterion)
      → ((x : MessageDataItemName T) → Has x (filter_map item_of criteria) → Has x items)
      → All (λ criterion. Covers items criterion.key) criteria
  Covers-from items [] f = tt
  Covers-from items (criterion ∷ criteria) f = (
    Covers-key items criterion.reverse criterion.key (λ x e. f x (item-Has criterion criteria x e)),
    Covers-from items criteria (λ x h. f x (later-Has criterion criteria x h)),
  )

  -- The items that are added for the criteria cover the key of each of them.
  pub push_all-Covers :
      (criteria : List SortCriterion) (items : List (MessageDataItemName T))
      → All
          (λ criterion. Covers (push_all (filter_map item_of criteria) items) criterion.key)
          criteria
  push_all-Covers criteria items =
      Covers-from _ criteria (λ x h. push_all-item x (filter_map item_of criteria) items h)
