-- ===== src/SubDag/Added.antt =====
-- addIndexToSubDAG keeps the invariant; so does the test before it.
use dag.Base.{
  ◌⊎◌, ℕ, ◌<◌, ◌≡◌, refl, sym, ap, ◌∙◌, inl, inr, Str, Str_discrete, List, [], ◌∷◌, ◌++◌, Memᴰ,
  Option, none, some, Option-cases, lookup, lookup-insert, keys-insert_fresh, length, length-concat,
  get_elem?, get_elem?-of_lt, get_elem?-append_left, get_elem?-concat_last, get_elem?-concat_cases,
  ℕ_discrete, ok, arith,
}
use dag.Base.Int.{ℤ, pos, ℤ_discrete}
use dag.SubDag.{Source, SubState, add_size, add_sub_label, added, add_index, ensure}
use dag.SubDag.Inv.{Below, IsWellFormed, origins, Origin, Known, Kept, Inv}

module _ (s : Source) (root : ℕ) (g : SubState) (inv : Kept s root g) (index : ℕ)
    (new : lookup ℕ_discrete index g.conversion ≡ none) (id : Str)
    (there : get_elem? s.prev.nodes index ≡ some id) (sizes : List ℕ) where
  abbrev g' : SubState
  g' = added s index id sizes g

  origins-added : origins g' ≡ origins g ++ index ∷ []
  origins-added = keys-insert_fresh ℕ_discrete index (length g.nodes) g.conversion new

  pub Known-added : (i : ℕ) → Known g i → Known g' i
  Known-added i k = ground (arith, lookup-insert ℕ_discrete index i (length g.nodes) g.conversion)

  pub lookup-added : lookup ℕ_discrete index g'.conversion ≡ some (length g.nodes)
  lookup-added = ground (arith, lookup-insert ℕ_discrete index index (length g.nodes) g.conversion)

  pub Origin-added : (k i : ℕ) → Origin g k i → Origin g' k i
  Origin-added k i o = rw origins-added (get_elem?-append_left (origins g) (index ∷ []) k o)

  Origin-added_cases :
      (k i : ℕ) → Origin g' k i → Origin g k i ⊎ ((k ≡ length g.nodes) × (i ≡ index))
  Origin-added_cases k i o =
      elim (get_elem?-concat_cases (origins g) index k (rw origins-added at o)) [
        | inl old ↦ inl old
        | inr (at_end, same) ↦ inr (at_end ∙ inv.counted, same)
      ]

  Origin-added_self : Origin g' (length g.nodes) index
  Origin-added_self =
      rw origins-added (get_elem?-concat_last (origins g) index (length g.nodes) (sym inv.counted))

  added-counted : length (origins g') ≡ length g'.nodes
  added-counted =
      rw origins-added
        (length-concat (origins g) index ∙ (ap ℕ.suc inv.counted ∙ sym (length-concat g.nodes id)))

  added-indexed : (i k : ℕ) → lookup ℕ_discrete i g'.conversion ≡ some k → Origin g' k i
  added-indexed i k e = elim (ℕ_discrete index i) [
    | yes same ↦
        let at_end : k ≡ length g.nodes =
          ground (arith, lookup-insert ℕ_discrete index i (length g.nodes) g.conversion) in
        rw (at_end, ← same) Origin-added_self
    | no other ↦ Origin-added k i (
        inv.indexed i k
          (ground (arith, lookup-insert ℕ_discrete index i (length g.nodes) g.conversion)))
  ]

  added-placed : (k i : ℕ) → Origin g' k i → lookup ℕ_discrete i g'.conversion ≡ some k
  added-placed k i o =
      let stored = lookup-insert ℕ_discrete index i (length g.nodes) g.conversion in
      elim (Origin-added_cases k i o) [
        | inl old ↦ let before = inv.placed k i old in ground (arith, stored)
        | inr (at_end, same) ↦ ground (arith, stored)
      ]

  added-named :
      (k i : ℕ)
      → Origin g' k i
      → (x : Str) × (get_elem? g'.nodes k ≡ some x) × (get_elem? s.prev.nodes i ≡ some x)
  added-named k i o = elim (Origin-added_cases k i o) [
    | inl old ↦
        let (x, here, before) = inv.named k i old in
        (x, get_elem?-append_left g.nodes (id ∷ []) k here, before)
    | inr (at_end, same) ↦ (id, get_elem?-concat_last g.nodes id k at_end, rw same there)
  ]

  added-reached : Below s.prev.links root index → (i : ℕ) → Known g' i → Below s.prev.links root i
  added-reached below i k = elim (ℕ_discrete index i) [
    | yes same ↦ rw (← same) below
    | no other ↦
        inv.reached i
          (ground (arith, lookup-insert ℕ_discrete index i (length g.nodes) g.conversion))
  ]

  added-linked :
      (a b : ℕ)
      → Memᴰ (a, b) g.links
      → (i : ℕ) × (k : ℕ) × Memᴰ (i, k) s.prev.links × Origin g' a i × Origin g' b k
  added-linked a b m =
      let (i, k, old, from, to) = inv.linked a b m in
      (i, k, old, Origin-added a i from, Origin-added b k to)

  -- A label of the sub-DAG: the place of its node, and the label that the node had.
  abbrev Labelled : SubState → Str → ℤ → Type 0
  Labelled h label x =
      (k : ℕ) × (i : ℕ) × (x ≡ pos k)
      × Origin h k i
      × (lookup ℤ_discrete (pos i) s.inverse_labels ≡ some label)

  labels_kept :
      (label : Str) (x : ℤ) → lookup Str_discrete label g.labels ≡ some x → Labelled g' label x
  labels_kept label x e =
      let (k, i, place, o, had) = inv.labelled label x e in (k, i, place, Origin-added k i o, had)

  add_sub_label_lem :
      (path : Option Str)
      → lookup ℤ_discrete (pos index) s.inverse_labels ≡ path
      → (label : Str) (x : ℤ)
      → lookup Str_discrete label (add_sub_label path (length g.nodes) g.labels) ≡ some x
      → Labelled g' label x
  unfolding add_sub_label
  add_sub_label_lem none had label x e = labels_kept label x e
  add_sub_label_lem (some path) had label x e =
      let stored = lookup-insert Str_discrete path label (pos (length g.nodes)) g.labels in
      elim (Str_discrete path label) [
        | yes same ↦
            (length g.nodes, index, ground (arith, stored), Origin-added_self, had ∙ ap some same)
        | no other ↦ labels_kept label x (ground (arith, stored))
      ]

  labels_added :
      (label : Str) (x : ℤ) → lookup Str_discrete label g'.labels ≡ some x → Labelled g' label x
  labels_added = add_sub_label_lem (lookup ℤ_discrete (pos index) s.inverse_labels) refl

  module _
      (enlarged : (prev : List ℕ)
        → s.prev_sizes ≡ some prev
        → (n : ℕ) × (get_elem? prev index ≡ some n) × (sizes ≡ g.sizes ++ n ∷ [])) where
    added-sized :
        (prev : List ℕ)
        → s.prev_sizes ≡ some prev
        → (length g'.sizes ≡ length g'.nodes)
          × ((k i : ℕ)
              → Origin g' k i
              → (n : ℕ) × (get_elem? g'.sizes k ≡ some n) × (get_elem? prev i ≡ some n))
    added-sized prev e =
        let (n, size, appended) = enlarged prev e in
        let (same, all) = inv.sized prev e in
        (
          rw appended (length-concat g.sizes n ∙ (ap ℕ.suc same ∙ sym (length-concat g.nodes id))),
          λ k i o. elim (Origin-added_cases k i o) [
            | inl old ↦
                let (m, here, before) = all k i old in
                (m, rw appended (get_elem?-append_left g.sizes (n ∷ []) k here), before)
            | inr (at_end, is_new) ↦ (
              n,
              rw appended (get_elem?-concat_last g.sizes n k (at_end ∙ sym same)),
              rw is_new size,
            )
          ],
        )

    pub added-Kept : Below s.prev.links root index → Kept s root g'
    added-Kept below = record {
      counted = added-counted;
      indexed = added-indexed;
      placed = added-placed;
      named = added-named;
      sized = added-sized;
      labelled = labels_added;
      reached = added-reached below;
      linked = added-linked;
    }

-- From a state to a later one nothing is forgotten, and the parents stay.
pub record Grows (g h : SubState) : Type 0 where
  pub known : (i : ℕ) → Known g i → Known h i
  pub origin : (k i : ℕ) → Origin g k i → Origin h k i
  pub parents_same : h.parents ≡ g.parents
  pub current_same : h.current ≡ g.current
  pub links_same : h.links ≡ g.links

-- The parents stay known.
grown-Inv :
    (s : Source) (root : ℕ) (g h : SubState)
    → Inv s root g
    → Grows g h
    → Kept s root h
    → Inv s root h
grown-Inv s root g h inv grown kept = record {
  kept = kept;
  rooted = grown.origin 0 root inv.rooted;
  parented = λ p m. grown.known p (inv.parented p (rw grown.parents_same at m));
  current_in = rw (grown.parents_same, grown.current_same) inv.current_in;
}

Grows-refl : (g : SubState) → Grows g g
Grows-refl g = record {
  known = λ i k. k;
  origin = λ k i o. o;
  parents_same = refl;
  current_same = refl;
  links_same = refl;
}

module _ (s : Source) (wf : IsWellFormed s) (root : ℕ) (g : SubState) (kept : Kept s root g)
    (index : ℕ) where
  -- What adding the node at `index` comes to.
  pub add_index-Kept :
      lookup ℕ_discrete index g.conversion ≡ none
      → index < length s.prev.nodes
      → Below s.prev.links root index
      → (h : SubState) × (add_index s index g ≡ ok h)
        × Kept s root h
        × (lookup ℕ_discrete index h.conversion ≡ some (length g.nodes))
        × Grows g h
  unfolding add_index add_size
  add_index-Kept new inside below =
      let (id, there) = get_elem?-of_lt s.prev.nodes index inside in
      let grows : (sizes : List ℕ) → Grows g (added s index id sizes g) = λ sizes. record {
        known = Known-added s root g kept index new id there sizes;
        origin = Origin-added s root g kept index new id there sizes;
        parents_same = refl;
        current_same = refl;
        links_same = refl;
      } in
      elim (Option-cases s.prev_sizes) [
        | inl unsized ↦ (
          added s index id g.sizes g,
          ground arith,
          added-Kept s root g kept index new id there g.sizes (λ prev e. cc) below,
          lookup-added s root g kept index new id there g.sizes,
          grows g.sizes,
        )
        | inr (prev, e) ↦
            let (n, size) = get_elem?-of_lt prev index (omega (arith, wf.sizes_in prev e)) in
            let sizes = g.sizes ++ n ∷ [] in
            (
              added s index id sizes g,
              ground arith,
              added-Kept s root g kept index new id there sizes
                  (λ other f.
                    let same : prev ≡ other = cc (sym e ∙ f) in (n, rw (← same) size, refl))
                  below,
              lookup-added s root g kept index new id there sizes,
              grows sizes,
            )
      ]

module _ (s : Source) (wf : IsWellFormed s) (root : ℕ) (g : SubState) (inv : Inv s root g)
    (index : ℕ) where
  -- What a call that adds the node at `index`, if it is new, comes to.
  abbrev pub Adds : Type 0
  Adds = (h : SubState) × (ensure s index g ≡ ok h) × Inv s root h × Known h index × Grows g h

  pub ensure-Adds : index < length s.prev.nodes → Below s.prev.links root index → Adds
  unfolding ensure
  ensure-Adds inside below = elim (Option-cases (lookup ℕ_discrete index g.conversion)) [
    | inr (k, e) ↦ (g, ground arith, inv, λ p. cc, Grows-refl g)
    | inl new ↦
        let (h, ran, kept, stored, grown) =
          add_index-Kept s wf root g inv.kept index new inside below in
        (
          h,
          rw (new, ensure) ran,
          grown-Inv s root g h inv grown kept,
          λ p. cc (sym p ∙ stored),
          grown,
        )
  ]
