-- ===== src/Task/Feed.antt =====
-- What a task does to a sequence of responses: it keeps those that it wants and hands back the
-- others. No code of the program is modelled here: these are the words in which the tasks of
-- src/tasks/tasks/ are specified.
use mathlib.Core.List.{foldl}
use imap_client.Prelude.{
  Option, none, some, List, [], ◌∷◌, ◌++◌, map, ◌≡◌, refl, inl, inr, append-nil, append_assoc,
  Option-cases, arith,
}

abbrev keep_back : {R : Type 0} → Option R → List R → List R
keep_back none rs = rs
keep_back (some r) rs = r ∷ rs

-- The last element of a list, or a default.
abbrev pub last_or : {Y : Type 0} → List Y → Y → Y
last_or [] d = d
last_or (y ∷ ys) d = last_or ys y

module _ {S R : Type 0} (p : S → R → Option R × S) where
  -- The responses handed back, in order, and the state of the task after all of them.
  unfoldable pub feed : S → List R → List R × S
  feed s [] = ([], s)
  feed s (r ∷ rs) =
      let (back, s') = p s r in let (backs, s'') = feed s' rs in (keep_back back backs, s'')

module _ {R X : Type 0} (want : R → Option X) where
  -- The responses that are not wanted.
  abbrev pub unwanted : List R → List R
  unwanted [] = []
  unwanted (r ∷ rs) = let rest = unwanted rs in elim (want r) [ none ↦ r ∷ rest | some x ↦ rest ]

  -- What the wanted responses carry.
  abbrev pub wanted : List R → List X
  wanted [] = []
  wanted (r ∷ rs) = let rest = wanted rs in elim (want r) [ none ↦ rest | some x ↦ x ∷ rest ]

module _ {S R X : Type 0} (p : S → R → Option R × S) (want : R → Option X)
    (update : S → X → S) where
  -- One response: kept by `update` if it is wanted, else handed back.
  abbrev pub Takes : S → R → Type 0
  Takes s r = p s r ≡ elim (want r) [ none ↦ (some r, s) | some x ↦ (none, update s x) ]

  module _ (takes : (s : S) (r : R) → Takes s r) where
    feed-foldl :
        (s : S) (rs : List R) → feed p s rs ≡ (unwanted want rs, foldl update s (wanted want rs))
    unfolding feed
    feed-foldl s [] = refl
    feed-foldl s (r ∷ rs) = elim (Option-cases (want r)) [
      | inl e ↦ ground (arith, e, takes s r, feed-foldl s rs)
      | inr (x, e) ↦ ground (arith, e, takes s r, feed-foldl (update s x) rs)
    ]

    foldl_last :
        {Y : Type 0} (get : S → Y) (f : X → Y)
        → ((s : S) (x : X) → get (update s x) ≡ f x)
        → (s : S) (xs : List X) → get (foldl update s xs) ≡ last_or (map f xs) (get s)
    foldl_last get f h s [] = refl
    foldl_last get f h s (x ∷ xs) = rw (foldl_last get f h (update s x) xs, h s x)

    foldl_push :
        (get : S → List X)
        → ((s : S) (x : X) → get (update s x) ≡ get s ++ x ∷ [])
        → (s : S) (xs : List X) → get (foldl update s xs) ≡ get s ++ xs
    foldl_push get h s [] = rw append-nil
    foldl_push get h s (x ∷ xs) =
        rw (foldl_push get h (update s x) xs, h s x) (append_assoc (get s) (x ∷ []) xs)

    -- A field that each wanted response overwrites.
    pub feed_last :
        {Y : Type 0} (get : S → Y) (f : X → Y)
        → ((s : S) (x : X) → get (update s x) ≡ f x)
        → (s : S) (rs : List R)
        → ((feed p s rs).0 ≡ unwanted want rs)
          × (get (feed p s rs).1 ≡ last_or (map f (wanted want rs)) (get s))
    feed_last get f h s rs = rw (feed-foldl s rs) (refl, foldl_last get f h s (wanted want rs))

    -- A field to which each wanted response appends.
    pub feed_push :
        (get : S → List X)
        → ((s : S) (x : X) → get (update s x) ≡ get s ++ x ∷ [])
        → (s : S) (rs : List R)
        → ((feed p s rs).0 ≡ unwanted want rs) × (get (feed p s rs).1 ≡ get s ++ wanted want rs)
    feed_push get h s rs = rw (feed-foldl s rs) (refl, foldl_push get h s (wanted want rs))

module _ {X Y : Type 0} where
  -- The last of some images is the image of the last.
  pub last_or-map : (f : X → Y) (xs : List X) (x : X) → last_or (map f xs) (f x) ≡ f (last_or xs x)
  last_or-map f [] x = refl
  last_or-map f (y ∷ xs) x = last_or-map f xs y

module _ {S R : Type 0} (p : S → R → Option R × S) where
  -- Responses are handed back exactly where `want` says so.
  pub feed_back :
      {X : Type 0} (want : R → Option X)
      → ((s : S) (r : R) → (p s r).0 ≡ elim (want r) [ none ↦ some r | some x ↦ none ])
      → (s : S) (rs : List R) → (feed p s rs).0 ≡ unwanted want rs
  unfolding feed
  feed_back want h s [] = refl
  feed_back want h s (r ∷ rs) = ground (arith, h s r, feed_back want h (p s r).1 rs)

  -- A field of the state that some of the responses overwrite.
  pub feed_field :
      {Y : Type 0} (get : S → Y) (want : R → Option Y)
      → ((s : S) (r : R) → get (p s r).1 ≡ elim (want r) [ none ↦ get s | some y ↦ y ])
      → (s : S) (rs : List R) → get (feed p s rs).1 ≡ last_or (wanted want rs) (get s)
  unfolding feed
  feed_field get want h s [] = refl
  feed_field get want h s (r ∷ rs) = ground (arith, h s r, feed_field get want h (p s r).1 rs)
