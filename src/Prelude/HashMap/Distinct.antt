-- ===== src/Prelude/HashMap/Distinct.antt =====
-- A map has each key once, so the order of an iteration over it does not matter to `get`.
use Prim.Native.Nat.{ℕ}
use mathlib.Core.List.{[], ◌∷◌, Perm, map}
use mathlib.Core.List.Permᴰ
use mathlib.Core.List.{Permᴰ}
use mathlib.Core.Logic.{∥∥₁_elim, ◌≢◌}
use mathlib.Core.Option
use mathlib.Core.Option.{Option, none, some}
use mathlib.Core.Path.{◌≡◌, refl, ◌∙◌, ap, subst}
use native.Mathlib.Omega.{arith}
use imap_client.Prelude.HashMap.{HashMap, get, insert, get-insert, insert_all}

-- Each key stands once in the list.
abbrev pub Distinct : {V : Type 0} → HashMap V → Type 0
Distinct [] = Unit
Distinct ((k, v) ∷ m) = (get k m ≡ none) × Distinct m

module _ {V : Type 0} where
  pub insert-Distinct : (k : ℕ) (v : V) (m : HashMap V) → Distinct m → Distinct (insert k v m)
  unfolding insert get
  insert-Distinct k v [] d = (refl, tt)
  insert-Distinct k v ((j, w) ∷ m) d = ground (arith, get-insert k j v m, insert-Distinct k v m d.1)

  abbrev Swapped : ℕ × V → ℕ × V → HashMap V → ℕ × V → ℕ × V → Type 0
  Swapped a b m a' b' = Distinct (a' ∷ b' ∷ m) × ((k : ℕ) → get k (a' ∷ b' ∷ m) ≡ get k (a ∷ b ∷ m))

  swapped : (a b : ℕ × V) (m : HashMap V) → Distinct (a ∷ b ∷ m) → Swapped a b m b a
  unfolding get
  swapped a b m d = ground arith

  Permᴰ-get :
      {m m' : HashMap V} → Permᴰ m m' → Distinct m → Distinct m' × ((k : ℕ) → get k m' ≡ get k m)
  unfolding get
  Permᴰ-get Permᴰ.nil d = (tt, λ k. refl)
  Permᴰ-get (Permᴰ.cons {a} e p) d =
      let (d', gets) = Permᴰ-get p d.1 in rw (← e) ((gets a.0 ∙ d.0, d'), λ k. rw (gets k) refl)
  Permᴰ-get (Permᴰ.swap {a} {b} {a'} {l = l} e e') d =
      subst (Swapped a b l a') e (subst (λ y. Swapped a b l y a) e' (swapped a b l d))
  Permᴰ-get (Permᴰ.trans p q) d =
      let (d', gets) = Permᴰ-get p d in
      let (d'', gets') = Permᴰ-get q d' in (d'', λ k. gets' k ∙ gets k)

  -- What the map has, an iteration in any order has as well.
  pub get-iter :
      (k : ℕ) {m order : HashMap V} {v : V}
      → Perm order m
      → Distinct m
      → get k m ≡ some v
      → ¬ (get k order ≢ some v)
  get-iter k p d h n = ∥∥₁_elim p (λ x y. absurd x) (λ q. n ((Permᴰ-get (Permᴰ.symm q) d).1 k ∙ h))

  get-insert_all :
      (k : ℕ) (kvs m : HashMap V)
      → Distinct kvs
      → get k (insert_all kvs m) ≡ elim (get k kvs) [ some v ↦ some v | none ↦ get k m ]
  unfolding get insert_all
  get-insert_all k [] m d = refl
  get-insert_all k ((j, v) ∷ kvs) m d =
      ground (arith, get-insert_all k kvs (insert j v m) d.1, get-insert j k v m)

module _ {V W : Type 0} (f : V → W) where
  abbrev values : HashMap V → HashMap W
  values = map (λ e. (e.0, f e.1))

  some-or-none : (o : Option W) → (elim o [ some v ↦ some v | none ↦ none ]) ≡ o
  some-or-none none = refl
  some-or-none (some v) = refl

  get-map : (k : ℕ) (m : HashMap V) → get k (values m) ≡ Option.map f (get k m)
  unfolding get
  get-map k [] = refl
  get-map k ((j, v) ∷ m) = ground (arith, get-map k m)

  map-Distinct : (m : HashMap V) → Distinct m → Distinct (values m)
  unfolding get
  map-Distinct [] d = tt
  map-Distinct ((k, v) ∷ m) d = (get-map k m ∙ ap (Option.map f) d.0, map-Distinct m d.1)

  -- A map that is iterated over in any order, changed entry by entry, and collected.
  pub get-collect :
      IsSet (Option W)
      → (k : ℕ) {m order : HashMap V} → Perm order m
      → Distinct m
      → get k (insert_all (values order) []) ≡ Option.map f (get k m)
  unfolding get
  get-collect set k {m} {order} p d = ∥∥₁_elim p (set _ _) (λ q.
      let (d', gets) = Permᴰ-get (Permᴰ.symm q) d in
      get-insert_all k (values order) [] (map-Distinct order d')
      ∙ some-or-none _
      ∙ get-map k order
      ∙ ap (Option.map f) (gets k))
