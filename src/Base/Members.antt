-- ===== src/Base/Members.antt =====
-- Membership of lists, with and without the place; lists without repetition.
use Prim.Native.Nat.{ℕ, zero, suc, ◌<◌}
use mathlib.Core.Path.{◌≡◌, ap, sym}
use mathlib.Core.Logic.{∥∥₁_elim, inl, inr}
use mathlib.Core.HLevel.{⊥_prop}
use mathlib.Core.List.{List, [], ◌∷◌, ◌++◌, Mem, Memᴰ, Nodup, Nodup-cons, perm_append_singleton}
use mathlib.Core.List.Memᴰ
use mathlib.Core.List.Perm
use mathlib.Core.Option.{some}
use native.Mathlib.Omega.{arith}
use dag.Base.Lists.{length, get_elem?}

module _ {ℓ} {A : Type ℓ} where
  pub dec_Memᴰ : Discrete A → (a : A) (xs : List A) → Dec (Memᴰ a xs)
  dec_Memᴰ d a [] = no Memᴰ.not-nil
  dec_Memᴰ d a (x ∷ xs) = elim (d a x) [
    | yes p ↦ yes (Memᴰ.head p)
    | no p ↦ elim (dec_Memᴰ d a xs) [
      | yes q ↦ yes (Memᴰ.tail q)
      | no q ↦ no λ m. elim (Memᴰ.cases_cons m) [ inl e ↦ p e | inr t ↦ q t ]
    ]
  ]

  -- Over a type with decidable equality the place can be found again.
  pub Mem-Memᴰ : Discrete A → {a : A} {xs : List A} → Mem a xs → Memᴰ a xs
  Mem-Memᴰ d {a} {xs} m = elim (dec_Memᴰ d a xs) [ yes p ↦ p | no p ↦ absurd (∥∥₁_elim m ⊥_prop p) ]

  pub Memᴰ-get_elem? : {a : A} {xs : List A} → Memᴰ a xs → (k : ℕ) × (get_elem? xs k ≡ some a)
  Memᴰ-get_elem? (Memᴰ.head e) = (0, ap some (sym e))
  Memᴰ-get_elem? (Memᴰ.tail m) = let (k, e) = Memᴰ-get_elem? m in (suc k, e)

  pub get_elem?-Memᴰ : {a : A} (xs : List A) (k : ℕ) → get_elem? xs k ≡ some a → Memᴰ a xs
  get_elem?-Memᴰ [] k e = cc
  get_elem?-Memᴰ (x ∷ xs) zero e = Memᴰ.head (cc)
  get_elem?-Memᴰ (x ∷ xs) (suc k) e = Memᴰ.tail (get_elem?-Memᴰ xs k e)

  pub get_elem?-lt : {a : A} (xs : List A) (k : ℕ) → get_elem? xs k ≡ some a → k < length xs
  get_elem?-lt [] k e = cc
  get_elem?-lt (x ∷ xs) zero e = omega arith
  get_elem?-lt (x ∷ xs) (suc k) e = omega (arith, get_elem?-lt xs k e)

  pub Nodup-concat : (xs : List A) (x : A) → Nodup xs → ¬ Mem x xs → Nodup (xs ++ x ∷ [])
  Nodup-concat xs x h new =
      Perm.nodup (Perm.symm (perm_append_singleton x xs)) (Nodup-cons.1 (new, h))
