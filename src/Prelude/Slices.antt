-- ===== src/Prelude/Slices.antt =====
-- `<[T]>::chunks` and `<[T]>::sort_by` of the Rust standard library.
pub mod Laws
use Prim.Native.Nat.{ℕ, zero, suc, ◌-◌, Ordering, lt, eq, gt}
use mathlib.Core.List.{List, [], ◌∷◌}
use imap_client.Prelude.Compare.{Comparison}

module _ {A : Type 0} where
  -- The rest of a chunk that has room for `room` elements, and the chunks after it.
  abbrev pub fill : (size room : ℕ) → List A → List A × List (List A)
  fill size room [] = ([], [])
  fill size zero (x ∷ xs) =
      let (chunk, chunks') = fill size (size - 1) xs in ([], (x ∷ chunk) ∷ chunks')
  fill size (suc room) (x ∷ xs) = let (chunk, chunks') = fill size room xs in (x ∷ chunk, chunks')

  -- `chunks`, for a positive size.
  unfoldable pub chunks : ℕ → List A → List (List A)
  chunks size xs = (fill size 0 xs).1

  -- Before the first element that is not less.
  unfoldable pub insert_sorted : Comparison A → A → List A → List A
  insert_sorted cmp x [] = x ∷ []
  insert_sorted cmp x (y ∷ ys) =
      let rest = insert_sorted cmp x ys in
      elim (cmp y x) [ Ordering.lt ↦ y ∷ rest | _ ↦ x ∷ y ∷ ys ]

  -- `sort_by`, which is stable.
  unfoldable pub sort_by : Comparison A → List A → List A
  sort_by cmp [] = []
  sort_by cmp (x ∷ xs) = insert_sorted cmp x (sort_by cmp xs)
