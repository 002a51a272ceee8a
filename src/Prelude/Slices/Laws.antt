-- ===== src/Prelude/Slices/Laws.antt =====
-- What `chunks` and `sort_by` return.
use Prim.Native.Nat.{ℕ, zero, suc, ◌-◌, ◌≤◌, ◌<◌, Ordering, lt, eq, gt}
use mathlib.Core.List.{List, [], ◌∷◌, ◌++◌, Perm}
use mathlib.Core.List.Perm
use mathlib.Core.Path.{◌≡◌, refl, ap}
use mathlib.Core.Logic.{◌≢◌}
use native.Mathlib.Omega.{arith}
use imap_client.Prelude.Lists.{All, length}
use imap_client.Prelude.Compare.{Comparison, IsTotal}
use imap_client.Prelude.Slices.{fill, chunks, insert_sorted, sort_by}

module _ {A : Type 0} where
  -- The elements of all chunks.
  abbrev pub flatten : List (List A) → List A
  flatten [] = []
  flatten (xs ∷ xss) = xs ++ flatten xss

  fill-flatten :
      (size room : ℕ) (xs : List A) → (fill size room xs).0 ++ flatten (fill size room xs).1 ≡ xs
  fill-flatten size room [] = refl
  fill-flatten size zero (x ∷ xs) = ap (λ ys. x ∷ ys) (fill-flatten size (size - 1) xs)
  fill-flatten size (suc room) (x ∷ xs) = ap (λ ys. x ∷ ys) (fill-flatten size room xs)

  -- A chunk of a positive size.
  abbrev pub Sized : ℕ → List A → Type 0
  Sized size chunk = (1 ≤ length chunk) × (length chunk ≤ size)

  fill-Sized :
      (size room : ℕ) (xs : List A)
      → 1 ≤ size
      → room < size
      → (length (fill size room xs).0 ≤ room) × All (Sized size) (fill size room xs).1
  fill-Sized size room [] h r = (omega arith, tt)
  fill-Sized size zero (x ∷ xs) h r =
      let (short, sized) = fill-Sized size (size - 1) xs h (omega arith) in
      (omega arith, ((omega arith, omega arith), sized))
  fill-Sized size (suc room) (x ∷ xs) h r =
      let (short, sized) = fill-Sized size room xs h (omega arith) in (omega arith, sized)

  pub chunks-flatten : (size : ℕ) (xs : List A) → flatten (chunks size xs) ≡ xs
  unfolding chunks
  chunks-flatten size [] = refl
  chunks-flatten size (x ∷ xs) = fill-flatten size 0 (x ∷ xs)

  pub chunks-Sized : (size : ℕ) (xs : List A) → 1 ≤ size → All (Sized size) (chunks size xs)
  unfolding chunks
  chunks-Sized size xs h = (fill-Sized size 0 xs h (omega arith)).1

  -- No element is less than one before it.
  abbrev pub Sorted : Comparison A → List A → Type 0
  Sorted cmp [] = Unit
  Sorted cmp (x ∷ xs) = All (λ y. cmp y x ≢ lt) xs × Sorted cmp xs

  insert_sorted-perm :
      (cmp : Comparison A) (x : A) (xs : List A) → Perm (insert_sorted cmp x xs) (x ∷ xs)
  unfolding insert_sorted
  insert_sorted-perm cmp x [] = Perm.rfl
  insert_sorted-perm cmp x (y ∷ ys) = elim (cmp y x) as (λ o. Perm (placed o) (x ∷ y ∷ ys)) [
    | Ordering.lt ↦ Perm.trans (Perm.cons y (insert_sorted-perm cmp x ys)) (Perm.swap x y ys)
    | _ ↦ Perm.rfl
  ]
    where
      placed : Ordering → List A
      placed o = elim o [ Ordering.lt ↦ y ∷ insert_sorted cmp x ys | _ ↦ x ∷ y ∷ ys ]

  pub sort_by-perm : (cmp : Comparison A) (xs : List A) → Perm (sort_by cmp xs) xs
  unfolding sort_by
  sort_by-perm cmp [] = Perm.rfl
  sort_by-perm cmp (x ∷ xs) =
      Perm.trans (insert_sorted-perm cmp x (sort_by cmp xs)) (Perm.cons x (sort_by-perm cmp xs))

  All-insert_sorted :
      (P : A → Type 0) (cmp : Comparison A) (x : A) (xs : List A)
      → P x
      → All P xs
      → All P (insert_sorted cmp x xs)
  unfolding insert_sorted
  All-insert_sorted P cmp x [] p ps = (p, tt)
  All-insert_sorted P cmp x (y ∷ ys) p ps =
      let rest = All-insert_sorted P cmp x ys p ps.1 in ground (arith, rest)

  All-map : {P Q : A → Type 0} (xs : List A) → ((x : A) → P x → Q x) → All P xs → All Q xs
  All-map [] f ps = tt
  All-map (x ∷ xs) f (p, ps) = (f x p, All-map xs f ps)

  module _ {cmp : Comparison A} (total : IsTotal cmp) where
    not_less_trans : (x y z : A) → cmp y x ≢ lt → cmp z y ≢ lt → cmp z x ≢ lt
    not_less_trans x y z h k e = ground (
      arith,
      h,
      k,
      e,
      total.swapped x y,
      total.swapped y z,
      total.swapped x z,
      total.transitive z x y,
      total.congruent x y z,
    )

    insert_sorted-Sorted :
        (x : A) (xs : List A) → Sorted cmp xs → Sorted cmp (insert_sorted cmp x xs)
    unfolding insert_sorted
    insert_sorted-Sorted x [] s = (tt, tt)
    insert_sorted-Sorted x (y ∷ ys) (above, s) = placed (cmp y x) refl (insert_sorted-Sorted x ys s)
      where
        behind : cmp y x ≢ lt → Sorted cmp (x ∷ y ∷ ys)
        behind n = ((n, All-map ys (λ z k. not_less_trans x y z n k) above), (above, s))

        placed :
            (o : Ordering)
            → cmp y x ≡ o
            → Sorted cmp (insert_sorted cmp x ys)
            → Sorted cmp (elim o [ Ordering.lt ↦ y ∷ insert_sorted cmp x ys | _ ↦ x ∷ y ∷ ys ])
        placed lt e rest = (
          All-insert_sorted (λ z. cmp z y ≢ lt) cmp x ys
              (λ h. ground (arith, e, h, total.swapped y x)) above,
          rest,
        )
        placed eq e rest = behind (λ h. cc)
        placed gt e rest = behind (λ h. cc)

    pub sort_by-Sorted : (xs : List A) → Sorted cmp (sort_by cmp xs)
    unfolding sort_by
    sort_by-Sorted [] = tt
    sort_by-Sorted (x ∷ xs) = insert_sorted-Sorted x (sort_by cmp xs) (sort_by-Sorted xs)
