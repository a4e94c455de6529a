-- ===== src/Manifest/Build.antt =====
-- `mstate` of dag.go: the walk over a DAG that collects its manifest, and the sorting at the end.
-- A method that mutates the `mstate` takes the state and returns the new one beside its outcome.
-- A walk is recursive, so it takes fuel: the depth of the recursion that it may reach.

pub mod Visit
pub mod Weights
pub mod Heaviest
pub mod Order
pub mod Sound
pub mod Complete
pub mod Fuel
pub mod Indices
pub mod Walked
pub mod Correct
pub mod Total
pub mod LinkOrder
use mathlib.Core.Path.{◌≡◌, refl}
use dag.Base.{
  ℕ, zero, suc, ◌+◌, ◌*◌, Str, Str_discrete, str_lt, Bool, List, [], ◌∷◌, ◌++◌, map, Option, none,
  some, Result, Error, ok, err, panic, Dict, lookup, insert, ltb, length, take, drop, arith,
}
use dag.Base.Sorting.{Sorting}
use dag.Ipld.{Ipld, Node, NodeGetter, node_id}
use dag.Manifest.{Manifest}

pub record MState : Type 0 where
  pub weights : Dict Str ℕ
  pub links : List (Str × Str)
  pub sizes : Dict Str ℕ
  pub nodes : List Str
  pub sorted_links : List (ℕ × ℕ)  -- the field Links of `ms.m`

pub data Outcome {ℓ} (A : Type ℓ) : Type ℓ where
  done : A → Outcome A
  fail : Error → Outcome A
  crash : Outcome A
  out_of_fuel : Outcome A

abbrev pub Walk : Type 0 → Type 0
Walk A = MState → MState × Outcome A

infixl 5 ◌>>=◌ ◌>>◌
abbrev pub ◌>>=◌ : {A B : Type 0} → Walk A → (A → Walk B) → Walk B
◌>>=◌ m f st =
    let (st', r) = m st in
    elim r [
      | done a ↦ f a st'
      | fail e ↦ (st', fail e)
      | crash ↦ (st', crash)
      | out_of_fuel ↦ (st', out_of_fuel)
    ]

abbrev pub ◌>>◌ : {B : Type 0} → Walk (Unit {0}) → Walk B → Walk B
m >> k = m >>= λ _. k

-- Inversion of a sequence that ends well.
pub bind-done :
    {A B : Type 0} (m : Walk A) (f : A → Walk B) (st st' : MState) (b : B)
    → ◌>>=◌ m f st ≡ (st', done b)
    → (mid : MState) × (a : A) × (m st ≡ (mid, done a)) × (f a mid ≡ (st', done b))
bind-done {A} {B} m f st st' b h = go (m st) refl h
  where
    go :
        (r : MState × Outcome A)
        → m st ≡ r
        → elim r.1 as (λ _. MState × Outcome B) [
          | done a ↦ f a r.0
          | fail e ↦ (r.0, fail e)
          | crash ↦ (r.0, crash)
          | out_of_fuel ↦ (r.0, out_of_fuel)
        ]
          ≡ (st', done b)
        → (mid : MState) × (a : A) × (m st ≡ (mid, done a)) × (f a mid ≡ (st', done b))
    go (mid, done a) e k = (mid, a, e, k)
    go (mid, fail x) e k = cc
    go (mid, crash) e k = cc
    go (mid, out_of_fuel) e k = cc

abbrev pub return : {A : Type 0} → A → Walk A
return a st = (st, done a)

abbrev pub modify : (MState → MState) → Walk (Unit {0})
modify f st = (f st, done tt)

abbrev pub lift : {A : Type 0} → Result A → Walk A
lift (ok a) st = (st, done a)
lift (err e) st = (st, fail e)
lift panic st = (st, crash)

pub lift-done :
    {A : Type 0} (r : Result A) (st st' : MState) (a : A)
    → lift r st ≡ (st', done a)
    → (st' ≡ st) × (r ≡ ok a)
lift-done r st st' a h = ground arith

abbrev pub check : Option Error → Walk (Unit {0})
check none st = (st, done tt)
check (some e) st = (st, fail e)

pub check-done :
    (e : Option Error) (st st' : MState) {u : Unit {0}} → check e st ≡ (st', done u) → st' ≡ st
check-done e st st' h = ground arith

abbrev pub push_link : Str → Str → MState → MState
push_link from to st = record st { links = st.links ++ (from, to) ∷ [] }

-- `m[k]` reads 0 where the key is missing.
abbrev pub read : Str → Dict Str ℕ → ℕ
read k m = elim (lookup Str_discrete k m) [ none ↦ 0 | some n ↦ n ]

-- The node is listed and its size is stored, also if Size() failed.
abbrev pub enter : Str → ℕ → MState → MState
enter id size st = record st {
  nodes = st.nodes ++ id ∷ [];
  sizes = insert Str_discrete id size st.sizes;
}

abbrev pub set_weight : Str → ℕ → MState → MState
set_weight id w st = record st { weights = insert Str_discrete id w st.weights }

-- Less of the `mstate`: heavier nodes come first.
abbrev pub heavier : Dict Str ℕ → Str → Str → Bool
heavier weights a b = ltb (read b weights) (read a weights)

-- Less of sortableLinks.
abbrev pub link_key : ℕ × ℕ → ℕ
link_key l = 1000 * (l.0 + 1) + l.1

abbrev pub link_less : ℕ × ℕ → ℕ × ℕ → Bool
link_less a b = ltb (link_key a) (link_key b)

-- `for i, id := range ms.m.Nodes { ms.weights[id] = i }`
unfoldable pub set_indices : ℕ → List Str → Dict Str ℕ → Dict Str ℕ
set_indices i [] weights = weights
set_indices i (id ∷ ids) weights = set_indices (suc i) ids (insert Str_discrete id i weights)

abbrev pub link_indices : Dict Str ℕ → Str × Str → ℕ × ℕ
link_indices weights link = (read link.0 weights, read link.1 weights)

abbrev pub initial : MState
initial = record { weights = []; links = []; sizes = []; nodes = []; sorted_links = [] }

abbrev pub manifest_of : MState → Manifest
manifest_of st = record { links = st.sorted_links; nodes = st.nodes }

module _ (srt : Sorting) where
  open srt use {sort}

  -- First by name, then by weight. Len() of the `mstate` is the number of sizes, so sort.Sort(ms)
  -- moves that many of the nodes.
  unfoldable pub sort_nodes : MState → List Str
  sort_nodes st =
      let names = sort Str str_lt st.nodes in
      let n = length st.sizes in sort Str (heavier st.weights) (take n names) ++ drop n names

  -- The part of makeManifest behind the walk.
  unfoldable pub finish : MState → MState
  unfolding sort_nodes set_indices
  finish st =
      let nodes = sort_nodes st in
      let weights = set_indices 0 nodes st.weights in
      record st {
        nodes = nodes;
        weights = weights;
        sorted_links = sort (ℕ × ℕ) link_less (map (link_indices weights) st.links);
      }

module _ (lib : Ipld) (ng : NodeGetter lib) where
  -- The loop of addNode over the links; `add` is addNode, and `w` is `*weight`.
  unfoldable pub add_links : (Node lib → Walk ℕ) → Str → List lib.Link → ℕ → Walk ℕ
  add_links add id [] w = return w
  add_links add id (link ∷ rest) w = do
    node ← lift (ng.get_link link)
    modify (push_link id (node_id lib node))
    l_weight ← add node
    add_links add id rest (w + 1 + l_weight)

  -- addNode on a node that is not listed yet.
  unfoldable pub add_fresh : (Node lib → Walk ℕ) → Node lib → Walk ℕ
  unfolding add_links
  add_fresh add node = do
    modify (enter (node_id lib node) node.size.0)
    check node.size.1
    w ← add_links add (node_id lib node) node.links 0
    modify (set_weight (node_id lib node) w)
    return w

  -- Returns what `*weight` is at the end, for a weight of 0 at the start.
  unfoldable pub add_node : ℕ → Node lib → Walk ℕ
  unfolding add_fresh
  add_node zero node st = (st, out_of_fuel)
  add_node (suc fuel) node st = elim (lookup Str_discrete (node_id lib node) st.sizes) [
    | some _ ↦ (st, done 0)
    | none ↦ add_fresh (add_node fuel) node st
  ]

  unfoldable pub make_manifest : Sorting → ℕ → lib.Cid → Walk (Unit {0})
  unfolding add_node finish
  make_manifest srt fuel id = do
    node ← lift (ng.get id)
    _weight ← add_node fuel node
    modify (finish srt)

  -- NewManifest returns the manifest beside the error, as far as the walk came.
  unfoldable pub new_manifest : Sorting → ℕ → lib.Cid → Manifest × Outcome (Unit {0})
  unfolding make_manifest
  new_manifest srt fuel id = let (st, r) = make_manifest srt fuel id initial in (manifest_of st, r)
