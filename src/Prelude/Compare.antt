-- ===== src/Prelude/Compare.antt =====
-- `std::cmp::Ordering` and `Ord::cmp`: how comparisons are combined, and when they are total orders.
use Prim.Native.Nat.{ℕ, compare, Ordering, lt, eq, gt}
use mathlib.Core.List.{List, [], ◌∷◌}
use mathlib.Core.Option.{Option, none, some}
use mathlib.Core.Path.{◌≡◌, refl}
use native.Mathlib.Omega.{arith}

abbrev pub Comparison : Type 0 → Type 0
Comparison A = A → A → Ordering

-- `Ordering::reverse`
abbrev pub reverse : Ordering → Ordering
reverse lt = gt
reverse eq = eq
reverse gt = lt

-- The first comparison, and the second where the first is equal.
abbrev pub then_cmp : Ordering → Ordering → Ordering
then_cmp eq o = o
then_cmp lt o = lt
then_cmp gt o = gt

-- `Ord for Option`: `None` is the least.
abbrev pub option_cmp : {A : Type 0} → Comparison A → Comparison (Option A)
option_cmp c none none = eq
option_cmp c none (some y) = lt
option_cmp c (some x) none = gt
option_cmp c (some x) (some y) = c x y

-- `Ord for [u8]`
abbrev pub bytes_cmp : Comparison (List ℕ)
bytes_cmp [] [] = eq
bytes_cmp [] (y ∷ ys) = lt
bytes_cmp (x ∷ xs) [] = gt
bytes_cmp (x ∷ xs) (y ∷ ys) = then_cmp (compare x y) (bytes_cmp xs ys)

-- What `sort_by` asks of a comparison: it is a total order, up to elements that compare as equal.
pub record IsTotal {A : Type 0} (c : Comparison A) : Type 0 where
  pub swapped : (x y : A) → c y x ≡ reverse (c x y)
  pub transitive : (x y z : A) → c x y ≡ lt → c y z ≡ lt → c x z ≡ lt
  pub congruent : (x y z : A) → c x y ≡ eq → c x z ≡ c y z

pub compare-IsTotal : IsTotal compare
compare-IsTotal = record {
  swapped = λ x y. ground arith;
  transitive = λ x y z h k. ground arith;
  congruent = λ x y z h. ground arith;
}

module _ {A : Type 0} {c : Comparison A} (total : IsTotal c) where
  pub pull-IsTotal : {B : Type 0} (f : B → A) → IsTotal (λ x y. c (f x) (f y))
  pull-IsTotal f = record {
    swapped = λ x y. total.swapped (f x) (f y);
    transitive = λ x y z. total.transitive (f x) (f y) (f z);
    congruent = λ x y z. total.congruent (f x) (f y) (f z);
  }

  pub reverse-IsTotal : IsTotal (λ x y. reverse (c x y))
  reverse-IsTotal = record {
    swapped = λ x y. ground (arith, total.swapped x y);
    transitive = λ x y z h k.
        ground
          (arith, total.swapped x y, total.swapped y z, total.swapped x z, total.transitive z y x);
    congruent = λ x y z h. ground (arith, total.congruent x y z);
  }

  pub then-IsTotal : {d : Comparison A} → IsTotal d → IsTotal (λ x y. then_cmp (c x y) (d x y))
  then-IsTotal {d} later = record {
    swapped = λ x y. ground (arith, total.swapped x y, later.swapped x y);
    transitive = λ x y z h k. ground (
      arith,
      total.swapped x y,
      total.swapped y z,
      total.swapped x z,
      total.transitive x y z,
      total.congruent x y z,
      total.congruent z y x,
      later.transitive x y z,
    );
    congruent = λ x y z h. ground (arith, total.congruent x y z, later.congruent x y z);
  }

  pub option-IsTotal : IsTotal (option_cmp c)
  option-IsTotal = record { swapped = swapped; transitive = transitive; congruent = congruent }
    where
      swapped : (x y : Option A) → option_cmp c y x ≡ reverse (option_cmp c x y)
      swapped none none = refl
      swapped none (some y) = refl
      swapped (some x) none = refl
      swapped (some x) (some y) = total.swapped x y

      transitive :
          (x y z : Option A) → option_cmp c x y ≡ lt → option_cmp c y z ≡ lt → option_cmp c x z ≡ lt
      transitive none none z h k = cc
      transitive none (some y) none h k = cc
      transitive none (some y) (some z) h k = refl
      transitive (some x) none z h k = cc
      transitive (some x) (some y) none h k = cc
      transitive (some x) (some y) (some z) h k = total.transitive x y z h k

      congruent : (x y z : Option A) → option_cmp c x y ≡ eq → option_cmp c x z ≡ option_cmp c y z
      congruent none none z h = refl
      congruent none (some y) z h = cc
      congruent (some x) none z h = cc
      congruent (some x) (some y) none h = refl
      congruent (some x) (some y) (some z) h = total.congruent x y z h

pub bytes_cmp-IsTotal : IsTotal bytes_cmp
bytes_cmp-IsTotal = record { swapped = swapped; transitive = transitive; congruent = congruent }
  where
    swapped : (xs ys : List ℕ) → bytes_cmp ys xs ≡ reverse (bytes_cmp xs ys)
    swapped [] [] = refl
    swapped [] (y ∷ ys) = refl
    swapped (x ∷ xs) [] = refl
    swapped (x ∷ xs) (y ∷ ys) = ground (arith, swapped xs ys)

    transitive :
        (xs ys zs : List ℕ) → bytes_cmp xs ys ≡ lt → bytes_cmp ys zs ≡ lt → bytes_cmp xs zs ≡ lt
    transitive [] [] zs h k = cc
    transitive [] (y ∷ ys) [] h k = cc
    transitive [] (y ∷ ys) (z ∷ zs) h k = refl
    transitive (x ∷ xs) [] zs h k = cc
    transitive (x ∷ xs) (y ∷ ys) [] h k = cc
    transitive (x ∷ xs) (y ∷ ys) (z ∷ zs) h k = ground (arith, transitive xs ys zs)

    congruent : (xs ys zs : List ℕ) → bytes_cmp xs ys ≡ eq → bytes_cmp xs zs ≡ bytes_cmp ys zs
    congruent [] [] zs h = refl
    congruent [] (y ∷ ys) zs h = cc
    congruent (x ∷ xs) [] zs h = cc
    congruent (x ∷ xs) (y ∷ ys) [] h = refl
    congruent (x ∷ xs) (y ∷ ys) (z ∷ zs) h = ground (arith, congruent xs ys zs)
