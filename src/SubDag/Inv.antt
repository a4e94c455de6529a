-- ===== src/SubDag/Inv.antt =====
-- What holds of the generator while it builds a sub-DAG. The keys of `conversion`, in the order in
-- which they were stored, are the old indexes of the new nodes.
use dag.Base.{
  ℕ, ◌<◌, ◌≡◌, ◌≢◌, Str, Str_discrete, List, Memᴰ, none, some, keys, lookup, length, get_elem?,
  ℕ_discrete,
}
use dag.Base.Int.{ℤ, pos, ℤ_discrete}
use dag.SubDag.{Source, SubState}

-- The indexes that a chain of links leads to.
pub data Below (links : List (ℕ × ℕ)) (root : ℕ) : ℕ → Type 0 where
  top : Below links root root
  down : {i k : ℕ} → Below links root i → Memᴰ (i, k) links → Below links root k

-- Links stay within the nodes, and there is a size for each node, if there are sizes.
pub record IsWellFormed (s : Source) : Type 0 where
  pub links_in :
      (e : ℕ × ℕ) → Memᴰ e s.prev.links → (e.0 < length s.prev.nodes) × (e.1 < length s.prev.nodes)
  pub sizes_in : (sizes : List ℕ) → s.prev_sizes ≡ some sizes → length sizes ≡ length s.prev.nodes

abbrev pub origins : SubState → List ℕ
origins g = keys g.conversion

-- The node at `k` was at `i`.
abbrev pub Origin : SubState → ℕ → ℕ → Type 0
Origin g k i = get_elem? (origins g) k ≡ some i

abbrev pub Known : SubState → ℕ → Type 0
Known g i = lookup ℕ_discrete i g.conversion ≢ none

pub record Kept (s : Source) (root : ℕ) (g : SubState) : Type 0 where
  pub counted : length (origins g) ≡ length g.nodes
  pub indexed : (i k : ℕ) → lookup ℕ_discrete i g.conversion ≡ some k → Origin g k i
  pub placed : (k i : ℕ) → Origin g k i → lookup ℕ_discrete i g.conversion ≡ some k
  pub named :
      (k i : ℕ)
      → Origin g k i
      → (id : Str) × (get_elem? g.nodes k ≡ some id) × (get_elem? s.prev.nodes i ≡ some id)
  pub sized :
      (sizes : List ℕ)
      → s.prev_sizes ≡ some sizes
      → (length g.sizes ≡ length g.nodes)
        × ((k i : ℕ)
            → Origin g k i
            → (n : ℕ) × (get_elem? g.sizes k ≡ some n) × (get_elem? sizes i ≡ some n))
  pub labelled :
      (label : Str) (x : ℤ)
      → lookup Str_discrete label g.labels ≡ some x
      → (k : ℕ) × (i : ℕ) × (x ≡ pos k)
        × Origin g k i
        × (lookup ℤ_discrete (pos i) s.inverse_labels ≡ some label)
  pub reached : (i : ℕ) → Known g i → Below s.prev.links root i
  pub linked :
      (a b : ℕ)
      → Memᴰ (a, b) g.links
      → (i : ℕ) × (k : ℕ) × Memᴰ (i, k) s.prev.links × Origin g a i × Origin g b k

-- The root is the first node, the parents are known, and `current` stands at one of them.
pub record Inv (s : Source) (root : ℕ) (g : SubState) : Type 0 where
  pub kept : Kept s root g
  pub rooted : Origin g 0 root
  pub parented : (p : ℕ) → Memᴰ p g.parents → Known g p
  pub current_in : g.current < length g.parents
