-- ===== src/Base/Maps.antt =====
-- Go maps as association lists, new keys at the end. The order of the entries stands for the order
-- in which `range` walks the map; no theorem depends on it.
use mathlib.Core.Path.{◌≡◌, refl, sym}
use mathlib.Core.Logic.{◌≢◌, ◌↔◌, inl, inr, ite}
use mathlib.Core.Option.{Option, none, some}
use mathlib.Core.List.{List, [], ◌∷◌, ◌++◌, map, Memᴰ}
use mathlib.Core.List.Memᴰ
use native.Mathlib.Omega.{arith}

abbrev pub Dict {ℓ} : Type ℓ → Type ℓ → Type ℓ
Dict K V = List (K × V)

abbrev pub keys {ℓ} : {K V : Type ℓ} → Dict K V → List K
keys = map λ e. e.0

module _ {ℓ} {K V : Type ℓ} (d : Discrete K) where
  -- `v, ok := m[k]`
  unfoldable pub lookup : K → Dict K V → Option V
  lookup k [] = none
  lookup k ((j, v) ∷ m) = ite (d j k) (some v) (lookup k m)

  -- `m[k] = v`
  unfoldable pub insert : K → V → Dict K V → Dict K V
  insert k v [] = (k, v) ∷ []
  insert k v ((j, w) ∷ m) = ite (d j k) ((k, v) ∷ m) ((j, w) ∷ insert k v m)

  -- `delete(m, k)`
  unfoldable pub delete : K → Dict K V → Dict K V
  delete k [] = []
  delete k ((j, w) ∷ m) = ite (d j k) (delete k m) ((j, w) ∷ delete k m)

  pub lookup-insert :
      (k j : K) (v : V) (m : Dict K V) → lookup j (insert k v m) ≡ ite (d k j) (some v) (lookup j m)
  unfolding lookup insert
  lookup-insert k j v [] = refl
  lookup-insert k j v ((i, w) ∷ m) = ground (arith, lookup-insert k j v m)

  pub lookup-delete :
      (k j : K) (m : Dict K V) → lookup j (delete k m) ≡ ite (d k j) none (lookup j m)
  unfolding lookup delete
  lookup-delete k j [] = ground arith
  lookup-delete k j ((i, w) ∷ m) = ground (arith, lookup-delete k j m)

  -- A key is present exactly when looking it up succeeds.
  pub lookup_iff : (k : K) (m : Dict K V) → (lookup k m ≢ none) ↔ Memᴰ k (keys m)
  unfolding lookup
  lookup_iff k [] = (λ h. absurd (h refl), λ h. absurd (Memᴰ.not-nil h))
  lookup_iff k ((i, w) ∷ m) = elim (d i k) [
    | yes p ↦ (λ _. Memᴰ.head (sym p), λ _. ground arith)
    | no p ↦ (
      λ h. Memᴰ.tail ((lookup_iff k m).0 (ground arith)),
      λ h. elim (Memᴰ.cases_cons h) [
        | inl e ↦ absurd (p (sym e))
        | inr t ↦ let g = (lookup_iff k m).1 t in ground arith
      ],
    )
  ]

  pub keys-insert_fresh :
      (k : K) (v : V) (m : Dict K V) → lookup k m ≡ none → keys (insert k v m) ≡ keys m ++ k ∷ []
  unfolding lookup insert
  keys-insert_fresh k v [] h = refl
  keys-insert_fresh k v ((i, w) ∷ m) h = ground (arith, keys-insert_fresh k v m)

  pub keys-insert_old :
      (k : K) (v : V) (m : Dict K V) → lookup k m ≢ none → keys (insert k v m) ≡ keys m
  unfolding lookup insert
  keys-insert_old k v [] h = absurd (h refl)
  keys-insert_old k v ((i, w) ∷ m) h = ground (arith, keys-insert_old k v m)
