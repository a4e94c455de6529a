-- ===== src/Base/Sorting.antt =====
-- What package sort promises of sort.Sort: the elements are rearranged so that no later one is less
-- than an earlier one. It makes no promise on the order of elements of which neither is less.
use mathlib.Core.Path.{◌≡◌}
use mathlib.Core.Bool.{Bool, true, false}
use mathlib.Core.List.{List, Perm, Pairwise}

-- What package sort asks of Less: it is a strict weak order.
pub record IsWeakOrder {A : Type 0} (less : A → A → Bool) : Type 0 where
  pub asymm : (x y : A) → less x y ≡ true → less y x ≡ false
  pub chain : (x y z : A) → less y x ≡ false → less z y ≡ false → less z x ≡ false

abbrev pub Ordered : {A : Type 0} → (A → A → Bool) → List A → Type 0
Ordered less = Pairwise λ x y. less y x ≡ false

pub record Sorting : Type 1 where
  pub sort : (A : Type 0) → (A → A → Bool) → List A → List A
  pub sort_perm : (A : Type 0) (less : A → A → Bool) (xs : List A) → Perm (sort A less xs) xs
  pub sort_ordered :
      (A : Type 0) (less : A → A → Bool) (xs : List A)
      → IsWeakOrder less
      → Ordered less (sort A less xs)
