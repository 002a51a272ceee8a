-- ===== src/Prelude/Deque.antt =====
-- The functions of `std::collections::VecDeque` that the program calls to take an element out.
use Prim.Native.Nat.{ℕ, zero, suc}
use mathlib.Core.List.{List, [], ◌∷◌, ◌++◌}
use mathlib.Core.Logic.{◌⊎◌, inl, inr, ite}
use mathlib.Core.Option
use mathlib.Core.Option.{Option, none, some}
use mathlib.Core.Path.{◌≡◌, refl, ap}
use native.Mathlib.Omega.{arith}
use imap_client.Prelude.Lists.{All}

module _ {ℓ} {A : Type ℓ} where
  -- How a list splits at its first element that meets `P`.
  pub record IsFirst {κ} (P : A → Type κ) (xs : List A) (x : A) (rest : List A) : Type (ℓ ⊔ κ) where
    pub before : List A
    pub after : List A
    pub split : xs ≡ before ++ x ∷ after
    pub others : rest ≡ before ++ after
    pub skipped : All (λ y. ¬ P y) before
    pub hit : P x

  abbrev pub Removes {κ} : (A → Type κ) → List A → Option (A × List A) → Type (ℓ ⊔ κ)
  Removes P xs r =
      (All (λ y. ¬ P y) xs × (r ≡ none))
      ⊎ ((x : A) × (rest : List A) × IsFirst P xs x rest × (r ≡ some (x, rest)))

  abbrev put_back : A → Option (A × List A) → Option (A × List A)
  put_back x none = none
  put_back x (some (y, ys)) = some (y, x ∷ ys)

  -- `VecDeque::remove`
  unfoldable pub remove_at : List A → ℕ → Option (A × List A)
  remove_at [] i = none
  remove_at (x ∷ xs) zero = some (x, xs)
  remove_at (x ∷ xs) (suc i) = put_back x (remove_at xs i)

module _ {ℓ κ} {A : Type ℓ} {P : A → Type κ} (d : (x : A) → Dec (P x)) where
  -- `Iterator::position`
  unfoldable pub position : List A → Option ℕ
  position [] = none
  position (x ∷ xs) = let rest = Option.map suc (position xs) in ite (d x) (some 0) rest

  -- `let index = ..position(..)?; ..remove(index)`
  unfoldable pub remove_first : List A → Option (A × List A)
  unfolding position remove_at
  remove_first xs = elim (position xs) [ none ↦ none | some index ↦ remove_at xs index ]

  remove_first-cons :
      (x : A) (xs : List A) → ¬ P x → remove_first (x ∷ xs) ≡ put_back x (remove_first xs)
  unfolding remove_first
  remove_first-cons x xs h = ground arith

  remove_first-hit : (x : A) (xs : List A) → P x → remove_first (x ∷ xs) ≡ some (x, xs)
  unfolding remove_first
  remove_first-hit x xs h = ground arith

  IsFirst-cons :
      {xs rest : List A} {x : A} (y : A)
      → ¬ P y
      → IsFirst P xs x rest
      → IsFirst P (y ∷ xs) x (y ∷ rest)
  IsFirst-cons y h s = record {
    before = y ∷ s.before;
    after = s.after;
    split = ap (◌∷◌ y) s.split;
    others = ap (◌∷◌ y) s.others;
    skipped = (h, s.skipped);
    hit = s.hit;
  }

  -- The first element that meets the test comes out, and all others stay in their order.
  pub remove_first-Removes : (xs : List A) → Removes P xs (remove_first xs)
  unfolding remove_first
  remove_first-Removes [] = inl (tt, refl)
  remove_first-Removes (x ∷ xs) = elim (d x) [
    | yes hit ↦ inr (
      x,
      xs,
      record { before = []; after = xs; split = refl; others = refl; skipped = tt; hit = hit },
      remove_first-hit x xs hit,
    )
    | no miss ↦ rw (remove_first-cons x xs miss) (elim (remove_first-Removes xs) [
      | inl (misses, e) ↦ inl ((miss, misses), rw e)
      | inr (y, rest, s, e) ↦ inr (y, x ∷ rest, IsFirst-cons x miss s, rw e)
    ])
  ]
