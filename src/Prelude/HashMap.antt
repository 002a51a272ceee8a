-- ===== src/Prelude/HashMap.antt =====
-- `std::collections::HashMap` and `HashSet`, as lists of entries with distinct keys. They are
-- iterated over in an order that the standard library leaves open: it is the parameter `Iteration`.
pub mod Distinct
use Prim.Native.Nat.{ℕ}
use mathlib.Core.List.{List, [], ◌∷◌, ◌++◌, Perm, dec_mem}
use mathlib.Core.Logic.{ite}
use mathlib.Core.Option.{Option, none, some}
use mathlib.Core.Path.{◌≡◌, refl}
use native.Mathlib.Omega.{arith}
use imap_client.Prelude.Tests.{◌==◌, if◌then◌else◌}

-- A call of `into_iter` visits each entry once.
pub record Iteration : Type 1 where
  pub iter : (A : Type 0) → List A → List A
  pub iter-perm : (A : Type 0) (xs : List A) → Perm (iter A xs) xs

-- A map with keys of a type of machine integers.
abbrev pub HashMap : Type 0 → Type 0
HashMap V = List (ℕ × V)

module _ {V : Type 0} where
  -- `HashMap::get`
  unfoldable pub get : ℕ → HashMap V → Option V
  get k [] = none
  get k ((j, v) ∷ m) = if j == k then some v else get k m

  -- `HashMap::insert`, without the value that it returns.
  unfoldable pub insert : ℕ → V → HashMap V → HashMap V
  insert k v [] = (k, v) ∷ []
  insert k v ((j, w) ∷ m) = if j == k then (k, v) ∷ m else (j, w) ∷ insert k v m

  pub get-insert :
      (k j : ℕ) (v : V) (m : HashMap V)
      → get j (insert k v m) ≡ (if k == j then some v else get j m)
  unfolding get insert
  get-insert k j v [] = refl
  get-insert k j v ((i, w) ∷ m) = ground (arith, get-insert k j v m)

  -- `HashMap::extend` and `collect`: one `insert` for each entry of the iteration.
  unfoldable pub insert_all : List (ℕ × V) → HashMap V → HashMap V
  insert_all [] m = m
  insert_all ((k, v) ∷ kvs) m = insert_all kvs (insert k v m)

  -- `HashMap::remove`: the map without the key.
  unfoldable pub remove : ℕ → HashMap V → HashMap V
  remove k [] = []
  remove k ((j, w) ∷ m) = if j == k then m else (j, w) ∷ remove k m

-- A set.
abbrev pub HashSet : Type 0 → Type 0
HashSet A = List A

module _ {A : Type 0} (eq : Discrete A) where
  -- `HashSet::insert`
  unfoldable pub insert_item : A → HashSet A → HashSet A
  insert_item a s = ite (dec_mem eq a s) s (s ++ a ∷ [])

  -- `HashSet::extend`, and `collect` from the empty set.
  unfoldable pub extend : List A → HashSet A → HashSet A
  unfolding insert_item
  extend [] s = s
  extend (a ∷ as_) s = extend as_ (insert_item a s)
