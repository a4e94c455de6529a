-- ===== src/Tests/Insertion.antt =====
-- Insertion sort keeps the promise of package sort, so it can stand for it.
use mathlib.Core.List.{Pairwise-cons}
use mathlib.Core.List.Perm
use mathlib.Core.List.Memᴰ
use dag.Base.{inl, inr, Bool, Bool-cases, List, [], ◌∷◌, Perm, Pairwise, if◌then◌else◌}
use dag.Base.Sorting.{Sorting, IsWeakOrder, Ordered}
use mathlib.Core.Logic.{∥∥₁_elim}
use mathlib.Core.Bool.{Bool-set}

module _ {A : Type 0} (less : A → A → Bool) where
  unfoldable pub insert : A → List A → List A
  insert x [] = x ∷ []
  insert x (y ∷ ys) = if less y x then y ∷ insert x ys else x ∷ y ∷ ys

  unfoldable pub insertion_sort : List A → List A
  unfolding insert
  insertion_sort [] = []
  insertion_sort (x ∷ xs) = insert x (insertion_sort xs)

  insert-perm : (x : A) (ys : List A) → Perm (insert x ys) (x ∷ ys)
  unfolding insert
  insert-perm x [] = Perm.refl (x ∷ [])
  insert-perm x (y ∷ ys) = elim (Bool-cases (less y x)) [
    | inl p ↦ rw (p, insert) (Perm.trans (Perm.cons y (insert-perm x ys)) (Perm.swap x y ys))
    | inr p ↦ rw (p, insert) (Perm.refl (x ∷ y ∷ ys))
  ]

  pub sort-perm : (xs : List A) → Perm (insertion_sort xs) xs
  unfolding insertion_sort
  sort-perm [] = Perm.refl []
  sort-perm (x ∷ xs) = Perm.trans (insert-perm x (insertion_sort xs)) (Perm.cons x (sort-perm xs))

  module _ (weak : IsWeakOrder less) where
    insert-Ordered : (x : A) (ys : List A) → Ordered less ys → Ordered less (insert x ys)
    unfolding insert
    insert-Ordered x [] s =
        Pairwise-cons.1 (λ z m. absurd (∥∥₁_elim m (λ a b. absurd a) Memᴰ.not-nil), s)
    insert-Ordered x (y ∷ ys) s =
        let (first, rest) = Pairwise-cons.0 s in
        elim (Bool-cases (less y x)) [
          | inl p ↦
              rw (p, insert)
                (Pairwise-cons.1 (
                  λ z m. ∥∥₁_elim ((Perm.mem_iff (insert-perm x ys)).0 m) (Bool-set _ _) λ t.
                      elim (Memᴰ.cases_cons t) [
                        | inl e ↦ rw e (weak.asymm y x p)
                        | inr later ↦ first z ∣ later ∣₁
                      ],
                  insert-Ordered x ys rest,
                ))
          | inr p ↦
              rw (p, insert)
                (Pairwise-cons.1 (
                  λ z m. ∥∥₁_elim m (Bool-set _ _) λ t. elim (Memᴰ.cases_cons t) [
                    | inl e ↦ rw e p
                    | inr later ↦ weak.chain x y z p (first z ∣ later ∣₁)
                  ],
                  s,
                ))
        ]

    pub sort-Ordered : (xs : List A) → Ordered less (insertion_sort xs)
    unfolding insertion_sort
    sort-Ordered [] = Pairwise.nil
    sort-Ordered (x ∷ xs) = insert-Ordered x (insertion_sort xs) (sort-Ordered xs)

abbrev pub insertion : Sorting
insertion = record {
  sort = λ A less xs. insertion_sort less xs;
  sort_perm = λ A less xs. sort-perm less xs;
  sort_ordered = λ A less xs weak. sort-Ordered less weak xs;
}
