-- ===== src/Manifest/Build/Indices.antt =====
-- After the sorting the weights hold the indexes of the nodes.
use mathlib.Core.List.{Nodup-cons}
use dag.Base.{
  ℕ, zero, suc, ◌+◌, ◌≡◌, refl, ◌≢◌, ◌∙◌, sym, Str, Str_discrete, List, [], ◌∷◌, Dict, insert,
  lookup-insert, Memᴰ, Nodup, get_elem?, some, arith, Memᴰ-get_elem?,
}
use dag.Manifest.Build.{read, set_indices}

read-insert :
    (k j : Str) (n : ℕ) (m : Dict Str ℕ) → k ≢ j → read j (insert Str_discrete k n m) ≡ read j m
read-insert k j n m h = ground (arith, lookup-insert Str_discrete k j n m)

read-insert_self : (k : Str) (n : ℕ) (m : Dict Str ℕ) → read k (insert Str_discrete k n m) ≡ n
read-insert_self k n m = ground (arith, lookup-insert Str_discrete k k n m)

set_indices_other :
    (x : Str) (i : ℕ) (ids : List Str) (m : Dict Str ℕ)
    → ¬ Memᴰ x ids
    → read x (set_indices i ids m) ≡ read x m
unfolding set_indices
set_indices_other x i [] m h = refl
set_indices_other x i (id ∷ ids) m h =
    set_indices_other x (suc i) ids (insert Str_discrete id i m) (λ t. h (Memᴰ.tail t))
    ∙ read-insert id x i m (λ e. h (Memᴰ.head (sym e)))

set_indices_from :
    (x : Str) (i k : ℕ) (ids : List Str) (m : Dict Str ℕ)
    → Nodup ids
    → get_elem? ids k ≡ some x
    → read x (set_indices i ids m) ≡ i + k
unfolding set_indices
set_indices_from x i k [] m h e = cc
set_indices_from x i zero (id ∷ ids) m h e =
    let same : id ≡ x = cc in
    rw (← same) (
      set_indices_other id (suc i) ids (insert Str_discrete id i m) (λ t. (Nodup-cons.0 h).0 ∣ t ∣₁)
      ∙ (read-insert_self id i m ∙ omega arith))
set_indices_from x i (suc k) (id ∷ ids) m h e =
    set_indices_from x (suc i) k ids (insert Str_discrete id i m) (Nodup-cons.0 h).1 e ∙ omega arith

module _ (ids : List Str) (m : Dict Str ℕ) (once : Nodup ids) where
  pub read-set_indices :
      (x : Str) (k : ℕ) → get_elem? ids k ≡ some x → read x (set_indices 0 ids m) ≡ k
  read-set_indices x k e = set_indices_from x 0 k ids m once e ∙ omega arith

  pub get_elem?-set_indices :
      (x : Str) → Memᴰ x ids → get_elem? ids (read x (set_indices 0 ids m)) ≡ some x
  get_elem?-set_indices x h = let (k, e) = Memᴰ-get_elem? h in rw (read-set_indices x k e) e
