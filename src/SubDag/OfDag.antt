-- ===== src/SubDag/OfDag.antt =====
-- dag.go and sub_info.go together: a part cut out of what NewInfo returns, in terms of the DAG.
use mathlib.Core.Logic.{∥∥₁_elim, ∥∥₁_map, ∥∥₁_prop}
use mathlib.Core.HLevel.{⊥_prop}
use dag.Base.{
  ℕ, ◌<◌, ◌≡◌, refl, sym, ◌∙◌, subst, inl, inr, Str, Str_discrete, List, Mem, Memᴰ, Mem-Memᴰ,
  Memᴰ-get_elem?, get_elem?-lt, get_elem?-of_lt, get_elem?, some, ok, length, dec_lt, arith,
}
use dag.Base.Int.{pos}
use dag.Base.Sorting.{Sorting}
use dag.Ipld.{Ipld, Node, NodeGetter, node_id}
use dag.Graph.{Child, Reach, here, step, ContentAddressed, Named}
use dag.Manifest.{Manifest}
use dag.Manifest.Build.{done, new_manifest}
use dag.Manifest.Build.Correct.{new_manifest_nodes, new_manifest_links}
use dag.Manifest.Build.Fuel.{Covers}
use dag.Manifest.Build.Total.{Fetchable, new_manifest_returns}
use dag.Info.{Info, new_info, new_info-done}
use dag.SubDag.{source_of, info_at_index}
use dag.SubDag.Inv.{Below, top, down, IsWellFormed}
use dag.SubDag.Correct.{IsPart, info_at_index_lem}

module _ (lib : Ipld) (ng : NodeGetter lib) (srt : Sorting) (fuel : ℕ) (id : lib.Cid)
    (root : Node lib) (m : Manifest) (got : ng.get id ≡ ok root)
    (ran : new_manifest lib ng srt fuel id ≡ (m, done tt))
    (addressed : ContentAddressed lib ng root) where
  -- The node that stands at an index, below `n`.
  abbrev AtIndex : Node lib → ℕ → Node lib → Type 0
  AtIndex n j c =
      Reach lib ng n c × Reach lib ng root c × (get_elem? m.nodes j ≡ some (node_id lib c))

  next_below :
      (n c : Node lib) (i j : ℕ)
      → AtIndex n i c
      → Mem (i, j) m.links
      → ∥ ((d : Node lib) × AtIndex n j d × Child lib ng c d) ∥₁
  next_below n c i j (below, reached, at) link =
      ∥∥₁_map ((new_manifest_links lib ng srt fuel id root m got ran addressed i j).0 link)
        λ (p, d, from, edge, left, right).
          let same : p ≡ c = addressed p c from reached (cc (sym left ∙ at)) in
          let child : Child lib ng c d = subst (λ x. Child lib ng x d) same edge in
          (d, (step below child, step reached child, right), child)

  Below-reached :
      (n : Node lib) (k : ℕ) {j : ℕ}
      → Reach lib ng root n
      → get_elem? m.nodes k ≡ some (node_id lib n)
      → Below m.links k j
      → ∥ ((c : Node lib) × AtIndex n j c) ∥₁
  Below-reached n k reached at top = ∣ (n, (here, reached, at)) ∣₁
  Below-reached n k reached at (down {i} {k = j} b link) =
      ∥∥₁_elim (Below-reached n k reached at b) ∥∥₁_prop
        λ (c, there). ∥∥₁_map (next_below n c i j there ∣ link ∣₁) λ (d, next, child). (d, next)

  inside : (e : ℕ × ℕ) → Memᴰ e m.links → (e.0 < length m.nodes) × (e.1 < length m.nodes)
  inside (i, j) link =
      let ends = (new_manifest_links lib ng srt fuel id root m got ran addressed i j).0 ∣ link ∣₁ in
      (
        elim (dec_lt i (length m.nodes)) [
          | yes lt ↦ lt
          | no out ↦ absurd (
              ∥∥₁_elim ends ⊥_prop
                λ (p, d, from, edge, left, right). out (get_elem?-lt m.nodes i left))
        ],
        elim (dec_lt j (length m.nodes)) [
          | yes lt ↦ lt
          | no out ↦ absurd (
              ∥∥₁_elim ends ⊥_prop
                λ (p, d, from, edge, left, right). out (get_elem?-lt m.nodes j right))
        ],
      )

  -- The info with this manifest.
  module _ (i : Info) (has : i.manifest ≡ some m)
      (sized : (sizes : List ℕ) → i.sizes ≡ some sizes → length sizes ≡ length m.nodes) where
    fits : IsWellFormed (source_of i m)
    unfolding source_of
    fits = record { links_in = inside; sizes_in = sized }

    -- A part whose first node is `n`, in terms of the DAG.
    pub record IsCut (n : Node lib) (part : Manifest) : Type 0 where
      pub top_is : get_elem? part.nodes 0 ≡ some (node_id lib n)
      pub nodes_below : (x : Str) → Memᴰ x part.nodes → ∥ Named lib ng n x ∥₁
      pub links_below :
          (a b : ℕ)
          → Memᴰ (a, b) part.links
          → ∥ (
              (p : Node lib) × (d : Node lib) × Reach lib ng n p
              × Child lib ng p d
              × (get_elem? part.nodes a ≡ some (node_id lib p))
              × (get_elem? part.nodes b ≡ some (node_id lib d))) ∥₁

    module _ (n : Node lib) (k : ℕ) (reached : Reach lib ng root n)
        (at : get_elem? m.nodes k ≡ some (node_id lib n)) (r : Info) (part : Manifest)
        (from : List ℕ) (is_part : IsPart i m k r part from) where
      -- The nodes that stand at one place, in the part and in the whole.
      same_node :
          (a j : ℕ) (c : Node lib)
          → get_elem? from a ≡ some j
          → get_elem? m.nodes j ≡ some (node_id lib c)
          → get_elem? part.nodes a ≡ some (node_id lib c)
      same_node a j c origin whole =
          let (x, in_part, in_whole) = is_part.named a j origin in in_part ∙ sym in_whole ∙ whole

      part-IsCut : IsCut n part
      part-IsCut = record {
        top_is = same_node 0 k n is_part.rooted at;
        nodes_below = λ x listed.
            let (a, found) = Memᴰ-get_elem? listed in
            let (j, origin) =
              get_elem?-of_lt from a
                (omega (arith, is_part.counted, get_elem?-lt part.nodes a found)) in
            ∥∥₁_map (Below-reached n k reached at (is_part.reached a j origin))
              λ (c, (below, _, whole)). (c, below, cc (sym (same_node a j c origin whole) ∙ found));
        links_below = λ a b link.
            let (j, l, old, left, right) = is_part.linked a b link in
            ∥∥₁_elim (Below-reached n k reached at (is_part.reached a j left)) ∥∥₁_prop
              λ (p, there). ∥∥₁_map (next_below n p j l there ∣ old ∣₁) λ (d, next, child).
                (p, d, there.0, child, same_node a j p left there.2, same_node b l d right next.2);
      }

module _ (lib : Ipld) (ng : NodeGetter lib) (names : List Str) (srt : Sorting) (fuel : ℕ)
    (id : lib.Cid) (root : Node lib) where
  -- NewInfo returns an Info, and InfoAtIndex of it the part with `n` at its front.
  abbrev pub Cuts : Node lib → Type 0
  Cuts n =
      (i : Info) × (new_info lib ng srt fuel id ≡ done i)
      × (k : ℕ) × (r : Info) × (part : Manifest) × (info_at_index i (pos k) ≡ ok r)
      × (r.manifest ≡ some part)
      × (get_elem? part.nodes 0 ≡ some (node_id lib n))
      × ((x : Str) → Memᴰ x part.nodes → ∥ Named lib ng n x ∥₁)
      × ((a b : ℕ)
          → Memᴰ (a, b) part.links
          → ∥ (
              (p : Node lib) × (d : Node lib) × Reach lib ng n p
              × Child lib ng p d
              × (get_elem? part.nodes a ≡ some (node_id lib p))
              × (get_elem? part.nodes b ≡ some (node_id lib d))) ∥₁)

  -- Let `names` hold the identifier of every node that a link leads to, and of the root, which the
  -- getter returns for `id`. With more fuel than there are names, if every link below the root can be
  -- fetched, every node there has a size, and below the root an identifier names one node, NewInfo
  -- returns an Info. For each node `n` that the root reaches, InfoAtIndex of that Info returns, at
  -- some index, an Info whose manifest has `n` as its first node; each node of that
  -- manifest is one that `n` reaches, and each of its links is an edge of the DAG below `n`.
  pub cut_new_info :
      Covers names lib ng
      → Memᴰ (node_id lib root) names
      → length names < fuel
      → ng.get id ≡ ok root
      → Fetchable lib ng root
      → ContentAddressed lib ng root
      → (n : Node lib) → Reach lib ng root n
      → Cuts n
  cut_new_info covers named enough got all addressed n reached =
      let (m, ran) =
        new_manifest_returns lib ng names srt fuel id root covers named enough got all in
      let (i, made, has, unlabelled, sized) = new_info-done lib ng srt fuel id m ran in
      let listed =
        (new_manifest_nodes lib ng srt fuel id root m got ran addressed (node_id lib n)).1
          ∣ (n, reached, refl) ∣₁ in
      let (k, at) = Memᴰ-get_elem? (Mem-Memᴰ Str_discrete listed) in
      elim (info_at_index_lem i m has (fits lib ng srt fuel id root m got ran addressed i has sized)
        (pos k)) [
          | inl (k', same, inside_it, (r, part, from, cut, is_part)) ↦
              let is_k : k ≡ k' = cc same in
              let good =
                part-IsCut lib ng srt fuel id root m got ran addressed i has sized n k reached at r
                  part from (rw is_k is_part) in
              (
                i, made, k, r, part, cut, is_part.manifest_is, good.top_is, good.nodes_below,
                good.links_below,
              )
          | inr (outside, _) ↦ absurd (omega (arith, outside k refl, get_elem?-lt m.nodes k at))
        ]
