-- ===== src/Manifest/Build/Correct.antt =====
-- NewManifest describes the DAG below the node that it is asked for.
use mathlib.Core.List.{Pairwise-cons, mem-map_of_mem, exists_of_mem-map}
use mathlib.Core.List.Perm
use mathlib.Core.List.Pairwise
use mathlib.Core.List.Memᴰ
use mathlib.Core.Logic.{∥∥₁_elim, ∥∥₁_map, ∥∥₁_prop}
use dag.Base.{
  false, length-Perm, length-map, length, Dict, Pairwise, ℕ, ◌≤◌, ◌<◌, ◌≡◌, ◌↔◌, refl, ◌≢◌, ◌∙◌,
  sym, ap, subst, inl, inr, Str, Str_discrete, List, [], ◌∷◌, Mem, Memᴰ, Nodup, Perm, some, ok,
  arith, Mem-Memᴰ, get_elem?, map,
}
use dag.Base.Sorting.{Sorting, Ordered}
use dag.Ipld.{Ipld, Node, NodeGetter, node_id}
use dag.Graph.{Child, Reach, here, step, ContentAddressed, Named}
use dag.Manifest.{Manifest}
use dag.Manifest.Build.{
  MState, Outcome, add_node, done, initial, read, heavier, link_indices, set_indices, sort_nodes,
  finish, manifest_of, new_manifest,
}
use dag.Manifest.Build.Visit.{Visit}
use dag.Manifest.Build.Order.{sort_nodes-perm, sort_nodes-Ordered}
use dag.Manifest.Build.Weights.{Visit-count}
use dag.Manifest.Build.Heaviest.{Visit-new, Visit-self}
use dag.Manifest.Build.Indices.{read-set_indices, get_elem?-set_indices}
use dag.Manifest.Build.Walked.{
  walked-IsOnce, Visited-iff_Memᴰ, walked_Named, walked_Edge, walked_all, walked_edges,
  new_manifest-Visit, nothing,
}

module _ {lib : Ipld} {ng : NodeGetter lib} (srt : Sorting) {root : Node lib} {st : MState} {w : ℕ}
    (walk : Visit lib ng root initial w st) where
  open srt use {sort}

  abbrev ids : List Str
  ids = sort_nodes srt st

  ids-perm : Perm ids st.nodes
  ids-perm = sort_nodes-perm srt st (walked-IsOnce walk).0

  ids_once : Nodup ids
  ids_once = Perm.nodup (Perm.symm ids-perm) (walked-IsOnce walk).1

  module _ (addressed : ContentAddressed lib ng root) where
    mem-ids : (x : Str) → Mem x ids ↔ ∥ Named lib ng root x ∥₁
    mem-ids x = (
      λ m.
          ∣ walked_Named walk x
            ((Visited-iff_Memᴰ walk x).1 (Mem-Memᴰ Str_discrete ((Perm.mem_iff ids-perm).0 m))) ∣₁,
      λ t. ∥∥₁_elim t ∥∥₁_prop λ (n, r, e). (Perm.mem_iff ids-perm).1 (
          subst (λ y. Mem y st.nodes) e
            ∣ (Visited-iff_Memᴰ walk (node_id lib n)).0 (walked_all walk addressed n r) ∣₁),
    )

    ids-listed : (n : Node lib) → Reach lib ng root n → Memᴰ (node_id lib n) ids
    ids-listed n r = Mem-Memᴰ Str_discrete ((mem-ids (node_id lib n)).1 ∣ (n, r, refl) ∣₁)

    abbrev indices : Str × Str → ℕ × ℕ
    indices = link_indices (set_indices 0 ids st.weights)

    -- The indexes `i` and `j` stand for the two ends of an edge.
    abbrev IndexEdge : ℕ → ℕ → Type 0
    IndexEdge i j =
        (n : Node lib) × (c : Node lib) × Reach lib ng root n
        × Child lib ng n c
        × (get_elem? ids i ≡ some (node_id lib n))
        × (get_elem? ids j ≡ some (node_id lib c))

    links_sound : (i j : ℕ) (e : Str × Str) → indices e ≡ (i, j) → Memᴰ e st.links → IndexEdge i j
    links_sound i j e at_ij m =
        let (n, c, r, edge, ends) = walked_Edge walk e m in
        let place = get_elem?-set_indices ids st.weights ids_once in
        let named = subst (λ p. indices p ≡ (i, j)) ends at_ij in
        (
          n,
          c,
          r,
          edge,
          subst (λ k. get_elem? ids k ≡ some (node_id lib n)) (ap (λ p. p.0) named)
              (place (node_id lib n) (ids-listed n r)),
          subst (λ k. get_elem? ids k ≡ some (node_id lib c)) (ap (λ p. p.1) named)
              (place (node_id lib c) (ids-listed c (step r edge))),
        )

    links_complete : (i j : ℕ) → IndexEdge i j → Mem (i, j) (map indices st.links)
    links_complete i j (n, c, r, edge, at_i, at_j) =
        let place = read-set_indices ids st.weights ids_once in
        let same : indices (node_id lib n, node_id lib c) ≡ (i, j) =
          λ k. (place (node_id lib n) i at_i k, place (node_id lib c) j at_j k) in
        subst (λ p. Mem p (map indices st.links)) same
          (mem-map_of_mem indices ∣ walked_edges walk addressed n c r edge ∣₁)

    mem-links : (i j : ℕ) → Mem (i, j) (finish srt st).sorted_links ↔ ∥ IndexEdge i j ∥₁
    unfolding finish
    mem-links i j = (
      λ m.
          ∥∥₁_elim (exists_of_mem-map ((Perm.mem_iff (srt.sort_perm _ _ _)).0 m)) ∥∥₁_prop
            λ (e, listed, same). ∥∥₁_map listed (links_sound i j e same),
      λ t.
          ∥∥₁_elim t ∥∥₁_prop
            λ edge. (Perm.mem_iff (srt.sort_perm _ _ _)).1 (links_complete i j edge),
    )

  -- The head of a sorted list is no lighter than any other.
  head_heaviest :
      (xs : List Str) (top : Str)
      → Memᴰ top xs
      → ((x : Str) → Memᴰ x xs → x ≢ top → read x st.weights < read top st.weights)
      → Ordered (heavier st.weights) xs
      → (rest : List Str) × (xs ≡ top ∷ rest)
  head_heaviest [] top m above sorted = absurd (Memᴰ.not-nil m)
  head_heaviest (x ∷ xs) top m above sorted = elim (Str_discrete x top) [
    | yes same ↦ (xs, ap (λ y. y ∷ xs) same)
    | no other ↦ elim (Memᴰ.cases_cons m) [
      | inl e ↦ absurd (other (sym e))
      | inr later ↦
          let light = above x (Memᴰ.head refl) other in
          let kept = (Pairwise-cons.0 sorted).0 top ∣ later ∣₁ in absurd (ground arith)
    ]
  ]

  root_heaviest :
      (x : Str)
      → Memᴰ x ids
      → x ≢ node_id lib root
      → read x st.weights < read (node_id lib root) st.weights
  root_heaviest x m other =
      let listed =
        (Visited-iff_Memᴰ walk x).1 (Mem-Memᴰ Str_discrete ((Perm.mem_iff ids-perm).0 ∣ m ∣₁)) in
      omega (
        arith,
        Visit-self walk (nothing walk (node_id lib root)),
        (Visit-new walk x (nothing walk x) listed).1 (λ e. other (sym e)),
      )

  links-length : length (finish srt st).sorted_links ≡ w
  unfolding finish
  links-length =
      length-Perm (srt.sort_perm _ _ _) ∙ (length-map _ st.links ∙ (Visit-count walk ∙ omega arith))

  ids-root :
      (addressed : ContentAddressed lib ng root)
      → (rest : List Str) × (ids ≡ node_id lib root ∷ rest)
  ids-root addressed =
      head_heaviest ids (node_id lib root) (ids-listed addressed root here) root_heaviest
        (sort_nodes-Ordered srt st (walked-IsOnce walk).0)

module _ (lib : Ipld) (ng : NodeGetter lib) (srt : Sorting) (fuel : ℕ) (id : lib.Cid)
    (root : Node lib) (m : Manifest) (got : ng.get id ≡ ok root)
    (ran : new_manifest lib ng srt fuel id ≡ (m, done tt)) where
  run :
      (st : MState) × (w : ℕ) × (add_node lib ng fuel root initial ≡ (st, done w))
      × Visit lib ng root initial w st
      × (m ≡ manifest_of (finish srt st))
  run = new_manifest-Visit lib ng srt fuel id root m got ran

  nodes-eq : m.nodes ≡ sort_nodes srt run.0
  unfolding finish
  nodes-eq = ap (λ (k : Manifest). k.nodes) run.4

  -- If NewManifest returns no error, then no node is listed twice.
  pub new_manifest_once : Nodup m.nodes
  new_manifest_once = rw nodes-eq (ids_once srt run.3)

  -- If NewManifest returns no error, and below the root an identifier names one node, then the
  -- nodes of the manifest are exactly the identifiers of the nodes that the root reaches.
  pub new_manifest_nodes :
      ContentAddressed lib ng root → (x : Str) → Mem x m.nodes ↔ ∥ Named lib ng root x ∥₁
  new_manifest_nodes addressed x = rw nodes-eq (mem-ids srt run.3 addressed x)

  -- If NewManifest returns no error, and below the root an identifier names one node, then the
  -- root is the first node of the manifest.
  pub new_manifest_root_first :
      ContentAddressed lib ng root → (rest : List Str) × (m.nodes ≡ node_id lib root ∷ rest)
  new_manifest_root_first addressed = rw nodes-eq (ids-root srt run.3 addressed)

  -- If NewManifest returns no error, and below the root an identifier names one node, then the
  -- links of the manifest are exactly the pairs of indexes at which the two ends of an edge stand.
  pub new_manifest_links :
      ContentAddressed lib ng root
      → (i j : ℕ)
      → Mem (i, j) m.links
        ↔ ∥ (
            (n : Node lib) × (c : Node lib) × Reach lib ng root n
            × Child lib ng n c
            × (get_elem? m.nodes i ≡ some (node_id lib n))
            × (get_elem? m.nodes j ≡ some (node_id lib c))) ∥₁
  unfolding finish
  new_manifest_links addressed i j = rw (run.4) (mem-links srt run.3 addressed i j)

  -- The weights that the walk gives, before the map is used for the indexes.
  abbrev pub weights : Dict Str ℕ
  weights = (add_node lib ng fuel root initial).0.weights

  weights-eq : weights ≡ run.0.weights
  weights-eq = ap (λ (r : MState × Outcome ℕ). r.0.weights) run.2

  -- If NewManifest returns no error, then no node of the manifest is lighter than a later one, by
  -- the weights that addNode computes.
  pub new_manifest_order : Pairwise (λ a b. read b weights ≤ read a weights) m.nodes
  new_manifest_order =
      rw (nodes-eq, weights-eq)
        (Pairwise.imp (λ a b (h : heavier run.0.weights b a ≡ false). ground arith)
          (sort_nodes-Ordered srt run.0 (walked-IsOnce run.3).0))

  -- If NewManifest returns no error, then the weight of the root is the number of links in the
  -- manifest, and it is greater than the weight of every other node.
  pub new_manifest_root_weight :
      (read (node_id lib root) weights ≡ length m.links)
      × ((x : Str)
          → Mem x m.nodes
          → x ≢ node_id lib root
          → read x weights < read (node_id lib root) weights)
  unfolding finish
  new_manifest_root_weight =
      rw (weights-eq, run.4)
        (
          Visit-self run.3 (nothing run.3 (node_id lib root)) ∙ sym (links-length srt run.3),
          λ x listed other. root_heaviest srt run.3 x (Mem-Memᴰ Str_discrete listed) other,
        )
