-- ===== src/SubDag.antt =====
-- sub_info.go: the sub-DAG below one node of a manifest, with its sizes and labels.
pub mod Inv
pub mod Added
pub mod Rounds
pub mod Correct
pub mod OfDag
use dag.Base.{
  ℕ, suc, ◌+◌, ◌≡◌, Str, Str_discrete, Bool, List, [], ◌∷◌, ◌++◌, Option, none, some, Result, ok,
  err, panic, Dict, lookup, insert, length, get_elem?, ltb, leb, ◌==◌, if◌then◌else◌, or_panic,
  ◌>>=◌, ℕ_discrete, index_out_of_range, id_not_found, no_manifest, label_not_found,
}
use dag.Base.Int.{ℤ, pos, negsuc, ℤ_discrete}
use dag.Manifest.{Manifest, id_index}
use dag.Info.{Info}

-- The fields of subDAGGenerator that convert() only reads.
pub record Source : Type 0 where
  pub prev : Manifest
  pub prev_sizes : Option (List ℕ)
  pub inverse_labels : Dict ℤ Str
  pub last_branch : ℕ

-- The fields that it changes.
pub record SubState : Type 0 where
  pub conversion : Dict ℕ ℕ
  pub nodes : List Str
  pub links : List (ℕ × ℕ)
  pub sizes : List ℕ
  pub labels : Dict Str ℤ
  pub parents : List ℕ
  pub current : ℕ  -- CurrentParentIndex

unfoldable pub inverse : Dict Str ℤ → Dict ℤ Str → Dict ℤ Str
inverse [] inv = inv
inverse ((path, index) ∷ labels) inv = inverse labels (insert ℤ_discrete index path inv)

-- The first index of the last link, or 0.
unfoldable pub last_branch_of : List (ℕ × ℕ) → ℕ
last_branch_of [] = 0
last_branch_of (l ∷ []) = l.0
last_branch_of (l ∷ k ∷ ls) = last_branch_of (k ∷ ls)

-- newSubDAGGenerator, for an Info with a manifest.
unfoldable pub source_of : Info → Manifest → Source
unfolding inverse last_branch_of
source_of i m = record {
  prev = m;
  prev_sizes = i.sizes;
  inverse_labels = inverse i.labels [];
  last_branch = last_branch_of m.links;
}

abbrev pub start : ℕ → SubState
start root = record {
  conversion = [];
  nodes = [];
  links = [];
  sizes = [];
  labels = [];
  parents = root ∷ [];
  current = 0;
}

-- `s.Sizes` after the node at `index` is added.
unfoldable pub add_size : Option (List ℕ) → ℕ → List ℕ → Result (List ℕ)
add_size none index sizes = ok sizes
add_size (some prev) index sizes = do
  size ← or_panic (get_elem? prev index)
  ok (sizes ++ size ∷ [])

-- `s.Labels` after the node at `index` is added.
unfoldable pub add_sub_label : Option Str → ℕ → Dict Str ℤ → Dict Str ℤ
add_sub_label none k labels = labels
add_sub_label (some path) k labels = insert Str_discrete path (pos k) labels

-- `s.Conversion[index]` as a value.
abbrev pub converted : ℕ → SubState → ℕ
converted index g = elim (lookup ℕ_discrete index g.conversion) [ none ↦ 0 | some k ↦ k ]

-- The inner loop: `later` are the parents behind position `i`. `none` means that they have run out.
unfoldable pub next_parent : ℕ → ℕ → List ℕ → Option ℕ
next_parent from i [] = none
next_parent from i (p ∷ later) = if p == from then some (suc i) else next_parent from (suc i) later

-- The parents behind position `i`.
abbrev pub behind : ℕ → List ℕ → List ℕ
behind i [] = []
behind ℕ.zero (p ∷ ps) = ps
behind (suc i) (p ∷ ps) = behind i ps

module _ (s : Source) where
  abbrev pub added : ℕ → Str → List ℕ → SubState → SubState
  added index id sizes g =
      let k = length g.nodes in
      record g {
        nodes = g.nodes ++ id ∷ [];
        sizes = sizes;
        labels = add_sub_label (lookup ℤ_discrete (pos index) s.inverse_labels) k g.labels;
        conversion = insert ℕ_discrete index k g.conversion;
      }

  -- addIndexToSubDAG
  unfoldable pub add_index : ℕ → SubState → Result SubState
  unfolding add_size
  add_index index g = do
    id ← or_panic (get_elem? s.prev.nodes index)
    sizes ← add_size s.prev_sizes index g.sizes
    ok (added index id sizes g)

  -- `if _, ok := s.Conversion[index]; !ok { s.addIndexToSubDAG(index) }`
  unfoldable pub ensure : ℕ → SubState → Result SubState
  unfolding add_index
  ensure index g = elim (lookup ℕ_discrete index g.conversion) [
    | some _ ↦ ok g
    | none ↦ add_index index g
  ]

  abbrev pub follow : ℕ → ℕ → SubState → SubState
  follow from to g = record g {
    links = g.links ++ (converted from g, converted to g) ∷ [];
    parents = if leb to s.last_branch then g.parents ++ to ∷ [] else g.parents;
  }

  -- The body of the loop behind the search for the parent.
  unfoldable pub take_link : ℕ → ℕ → SubState → Result SubState
  unfolding ensure
  take_link from to g = do g' ← ensure from g; g'' ← ensure to g'; ok (follow from to g'')

  -- One round of the loop over the links; `none` is the early return.
  unfoldable pub round : ℕ → ℕ → SubState → Result (Option SubState)
  unfolding take_link next_parent
  round from to g = do
    parent ← or_panic (get_elem? g.parents g.current)
    if ltb from parent
        then ok (some g)
        else if from == parent
        then (take_link from to g >>= λ g'. ok (some g'))
        else elim (next_parent from g.current (behind g.current g.parents)) [
          | none ↦ ok none
          | some i ↦ take_link from to (record g { current = i }) >>= λ g'. ok (some g')
        ]

  unfoldable pub rounds : List (ℕ × ℕ) → SubState → Result SubState
  unfolding round
  rounds [] g = ok g
  rounds ((from, to) ∷ links) g = do
    r ← round from to g
    elim r [ none ↦ ok g | some g' ↦ rounds links g' ]

-- The Info that convert() returns: its Sizes are never nil.
abbrev pub sub_info_of : SubState → Info
sub_info_of g = record {
  manifest = some (record { links = g.links; nodes = g.nodes });
  labels = g.labels;
  sizes = some g.sizes;
}

-- convert, where `RootIndex` is in range.
unfoldable pub convert_from : Source → ℕ → Result Info
unfolding add_index rounds
convert_from s root = do
  g ← add_index s root (start root)
  g' ← rounds s s.prev.links g
  ok (sub_info_of g')

unfoldable pub in_range : ℤ → ℕ → Option ℕ
in_range (pos i) n = if ltb i n then some i else none
in_range (negsuc i) n = none

unfoldable pub info_at_index : Info → ℤ → Result Info
unfolding convert_from source_of in_range
info_at_index i index = elim i.manifest [
  | none ↦ err no_manifest
  | some m ↦ elim (in_range index (length m.nodes)) [
    | none ↦ err index_out_of_range
    | some root ↦ convert_from (source_of i m) root
  ]
]

unfoldable pub info_at_id : Info → Str → Result Info
unfolding info_at_index id_index ℤ_discrete
info_at_id i id = do
  m ← or_panic i.manifest
  elim (ℤ_discrete (id_index m id) (negsuc 0)) [
    | yes _ ↦ err id_not_found
    | no _ ↦ info_at_index i (id_index m id)
  ]

unfoldable pub info_at_label : Info → Str → Result Info
unfolding info_at_index lookup
info_at_label i label = elim (lookup Str_discrete label i.labels) [
  | none ↦ err (label_not_found label)
  | some index ↦ info_at_index i index
]
