-- ===== src/Base/Picks.antt =====
-- Taking one entry out of a list, wherever it stands, and sums over a list.
use Prim.Native.Nat.{ℕ, ◌+◌, ◌<◌}
use mathlib.Core.Path.{◌≡◌, refl}
use mathlib.Core.Logic.{◌⊎◌, inl, inr}
use mathlib.Core.List.{List, [], ◌∷◌, ◌++◌, Memᴰ}
use native.Mathlib.Omega.{arith}

-- `Pick x xs rest`: the list `xs` holds `x`, and without it is `rest`.
pub data Pick {ℓ} {A : Type ℓ} (x : A) : List A → List A → Type ℓ where
  first : {xs : List A} → Pick x (x ∷ xs) xs
  later : {y : A} {xs ys : List A} → Pick x xs ys → Pick x (y ∷ xs) (y ∷ ys)

module _ {ℓ} {A : Type ℓ} (w : A → ℕ) where
  -- The sum of `w` over a list.
  abbrev pub total : List A → ℕ
  total [] = 0
  total (x ∷ xs) = w x + total xs

  pub total-Pick : {x : A} {xs ys : List A} → Pick x xs ys → total xs ≡ w x + total ys
  total-Pick first = refl
  total-Pick (later p) = omega (arith, total-Pick p)

  pub total-concat : (xs : List A) (x : A) → total (xs ++ x ∷ []) ≡ total xs + w x
  total-concat [] x = omega arith
  total-concat (y ∷ xs) x = omega (arith, total-concat xs x)

  -- A sum over a list is positive where it is for a member.
  pub total_pos : {x : A} {xs : List A} → Memᴰ x xs → 0 < w x → 0 < total xs
  total_pos (Memᴰ.head e) h = omega (arith, rw e at h)
  total_pos (Memᴰ.tail m) h = omega (arith, total_pos m h)

module _ {ℓ} {A : Type ℓ} where
  pub Pick-Memᴰ : {x : A} {xs ys : List A} → Pick x xs ys → Memᴰ x xs
  Pick-Memᴰ first = Memᴰ.head refl
  Pick-Memᴰ (later p) = Memᴰ.tail (Pick-Memᴰ p)

  -- What is left was there before.
  pub Pick-rest : {x a : A} {xs ys : List A} → Pick x xs ys → Memᴰ a ys → Memᴰ a xs
  Pick-rest first m = Memᴰ.tail m
  Pick-rest (later p) (Memᴰ.head e) = Memᴰ.head e
  Pick-rest (later p) (Memᴰ.tail m) = Memᴰ.tail (Pick-rest p m)

  -- A split on a list that keeps the equation.
  pub List-cases : (xs : List A) → (xs ≡ []) ⊎ ((x : A) × (rest : List A) × (xs ≡ x ∷ rest))
  List-cases [] = inl refl
  List-cases (x ∷ xs) = inr (x, xs, refl)
