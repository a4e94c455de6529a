-- ===== src/SubDag/Correct.antt =====
-- What InfoAtIndex, InfoAtID and InfoAtLabel return.
use mathlib.Core.List.Memᴰ
use dag.Base.{
  ℕ, ◌<◌, ◌≡◌, ◌≢◌, refl, sym, ◌∙◌, inl, inr, ◌⊎◌, Str, Str_discrete, List, [], ◌∷◌, Memᴰ, none,
  some, Option-cases, Dict, lookup, lookup-insert, insert, length, get_elem?, get_elem?-lt, Result,
  ok, err, arith, index_out_of_range, id_not_found, label_not_found, dec_lt, ◌≤◌, subst,
}
use dag.Base.Int.{ℤ, pos, negsuc, ℤ_discrete}
use dag.Manifest.{Manifest}
use dag.Info.{Info}
use dag.SubDag.{
  Source, SubState, start, source_of, inverse, add_index, sub_info_of, convert_from, in_range,
  info_at_index, info_at_id, info_at_label,
}
use dag.Info.Labels.{id_index_lem}
use dag.SubDag.Inv.{Below, top, IsWellFormed, origins, Kept, Inv}
use dag.SubDag.Added.{add_index-Kept}
use dag.SubDag.Rounds.{all_rounds-Inv}

-- `r` is a part of the info `i` with the manifest `m`, with the node at `root` at its front.
-- `from` tells where each of its nodes was.
pub record IsPart (i : Info) (m : Manifest) (root : ℕ) (r : Info) (part : Manifest) (from : List ℕ)
    : Type 0 where
  pub manifest_is : r.manifest ≡ some part
  pub counted : length from ≡ length part.nodes
  pub rooted : get_elem? from 0 ≡ some root
  pub once : (k n j : ℕ) → get_elem? from k ≡ some j → get_elem? from n ≡ some j → k ≡ n
  pub named :
      (k j : ℕ)
      → get_elem? from k ≡ some j
      → (id : Str) × (get_elem? part.nodes k ≡ some id) × (get_elem? m.nodes j ≡ some id)
  pub sized :
      (sizes : List ℕ)
      → i.sizes ≡ some sizes
      → (new : List ℕ) × (r.sizes ≡ some new)
        × (length new ≡ length part.nodes)
        × ((k j : ℕ)
            → get_elem? from k ≡ some j
            → (n : ℕ) × (get_elem? new k ≡ some n) × (get_elem? sizes j ≡ some n))
  pub reached : (k j : ℕ) → get_elem? from k ≡ some j → Below m.links root j
  pub linked :
      (a b : ℕ)
      → Memᴰ (a, b) part.links
      → (j : ℕ) × (k : ℕ) × Memᴰ (j, k) m.links
        × (get_elem? from a ≡ some j)
        × (get_elem? from b ≡ some k)
  pub labelled :
      (label : Str) (x : ℤ)
      → lookup Str_discrete label r.labels ≡ some x
      → (k : ℕ) × (j : ℕ) × (x ≡ pos k) × (get_elem? from k ≡ some j) × Memᴰ (label, pos j) i.labels

-- A label that the inverse map gives is one of the map.
inverse_sound :
    (labels : Dict Str ℤ) (inv : Dict ℤ Str) (index : ℤ) (label : Str)
    → lookup ℤ_discrete index (inverse labels inv) ≡ some label
    → Memᴰ (label, index) labels ⊎ (lookup ℤ_discrete index inv ≡ some label)
unfolding inverse
inverse_sound [] inv index label e = inr e
inverse_sound ((path, at) ∷ labels) inv index label e =
    elim (inverse_sound labels (insert ℤ_discrete at path inv) index label e) [
      | inl m ↦ inl (Memᴰ.tail m)
      | inr stored ↦
          let law = lookup-insert ℤ_discrete at index path inv in
          elim (ℤ_discrete at index) [
            | yes same ↦ let named : path ≡ label = ground (arith, law) in inl (Memᴰ.head (cc))
            | no other ↦ inr (ground (arith, law))
          ]
    ]

nowhere-none : (label : Str) (index : ℤ) → ¬ (lookup ℤ_discrete index [] ≡ some label)
unfolding lookup
nowhere-none label index e = cc

root_only : (root p : ℕ) → Memᴰ p (root ∷ []) → p ≡ root
root_only root p h = elim (Memᴰ.cases_cons h) [ inl e ↦ e | inr t ↦ absurd (Memᴰ.not-nil t) ]

module _ (i : Info) (m : Manifest) (wf : IsWellFormed (source_of i m)) (root : ℕ)
    (inside : root < length m.nodes) where
  abbrev s : Source
  s = source_of i m

  start-Kept : Kept s root (start root)
  unfolding lookup
  start-Kept = record {
    counted = refl;
    indexed = λ i k e. cc;
    placed = λ k i o. cc;
    named = λ k i o. cc;
    sized = λ sizes e. (refl, λ k i o. cc);
    labelled = λ label x e. cc;
    reached = λ i k. absurd (k refl);
    linked = λ a b e. absurd (Memᴰ.not-nil e);
  }

  -- The state after the root is added.
  abbrev Started : Type 0
  Started = (g : SubState) × (add_index s root (start root) ≡ ok g) × Inv s root g

  started : Started
  unfolding lookup source_of
  started =
      let (g, ran, kept, stored, grown) =
        add_index-Kept s wf root (start root) start-Kept root refl inside top in
      (
        g,
        ran,
        record {
          kept = kept;
          rooted = kept.indexed root 0 stored;
          parented =
              λ p h. rw (root_only root p (rw grown.parents_same at h)) (λ e. cc (sym e ∙ stored));
          current_in = rw (grown.parents_same, grown.current_same) (omega arith);
        },
      )

  -- The state at the end of the loop.
  abbrev Built : Type 0
  Built = (g : SubState) × (convert_from s root ≡ ok (sub_info_of g)) × Inv s root g

  built : Built
  unfolding convert_from
  built =
      let (g, ran, inv) = started in
      let (h, looped, inv_h) = all_rounds-Inv s wf root s.prev.links g (λ e m. m) inv in
      (h, rw ran (rw looped refl), inv_h)

  Inv-IsPart :
      (g : SubState)
      → Inv s root g
      → IsPart i m root (sub_info_of g) (record { links = g.links; nodes = g.nodes }) (origins g)
  unfolding source_of
  Inv-IsPart g inv = record {
    manifest_is = refl;
    counted = inv.kept.counted;
    rooted = inv.rooted;
    once = λ k n j at_k at_n. cc (sym (inv.kept.placed k j at_k) ∙ inv.kept.placed n j at_n);
    named = inv.kept.named;
    sized = λ sizes e. let (counted, all) = inv.kept.sized sizes e in (g.sizes, refl, counted, all);
    reached = λ k j o. inv.kept.reached j (λ e. cc (sym e ∙ inv.kept.placed k j o));
    linked = inv.kept.linked;
    labelled = λ label x e.
        let (k, j, place, o, had) = inv.kept.labelled label x e in
        (
          k,
          j,
          place,
          o,
          elim (inverse_sound i.labels [] (pos j) label had) [
            | inl m ↦ m
            | inr nowhere ↦ absurd (nowhere-none label (pos j) nowhere)
          ],
        );
  }

-- The call at an index in range: it returns, and its result is a part of the info.
abbrev pub Returns : Info → Manifest → ℕ → Result Info → Type 0
Returns i m root call =
    (r : Info) × (part : Manifest) × (from : List ℕ) × (call ≡ ok r) × IsPart i m root r part from

-- What a call for the sub-DAG at an index comes to.
abbrev pub At : Info → Manifest → ℤ → Result Info → Type 0
At i m index call =
    ((root : ℕ) × (index ≡ pos root) × (root < length m.nodes) × Returns i m root call)
    ⊎ (((root : ℕ) → index ≡ pos root → length m.nodes ≤ root) × (call ≡ err index_out_of_range))

module _ (i : Info) (m : Manifest) (has : i.manifest ≡ some m)
    (wf : IsWellFormed (source_of i m)) where
  at_root-Returns :
      (root : ℕ) → root < length m.nodes → Returns i m root (info_at_index i (pos root))
  unfolding info_at_index in_range
  at_root-Returns root inside =
      let (g, ran, inv) = built i m wf root inside in
      (
        sub_info_of g,
        record { links = g.links; nodes = g.nodes },
        origins g,
        ground (arith, ran, has),
        Inv-IsPart i m wf root inside g inv,
      )

  -- InfoAtIndex on an Info with a manifest, whose links stay within the nodes and which has a size
  -- for each node, or no sizes: a negative index, and one behind the nodes, gives ErrIndexOutOfRange.
  -- For any other index it returns an Info, without a panic, that is a part of the given one: the
  -- node at the index is its first node, each of its nodes is there once, with the identifier and
  -- the size that it has in the given one, and is below the first node; its links are links of the
  -- given one, and so are its labels, both with the indexes of the part.
  pub info_at_index_lem : (index : ℤ) → At i m index (info_at_index i index)
  unfolding info_at_index in_range
  info_at_index_lem (negsuc k) = inr (λ root e. cc, ground (arith, has))
  info_at_index_lem (pos k) = elim (dec_lt k (length m.nodes)) [
    | yes inside ↦ inl (k, refl, inside, at_root-Returns k inside)
    | no outside ↦ inr (λ root e. let same : k ≡ root = cc in omega arith, ground (arith, has))
  ]

  -- InfoAtID on an Info with a manifest, whose links stay within the nodes and which has a size for
  -- each node, or no sizes: an identifier that is not among the nodes gives ErrIDNotFound, and any
  -- other the part at the first index at which it stands.
  pub info_at_id_lem :
      (id : Str)
      → (¬ Memᴰ id m.nodes × (info_at_id i id ≡ err id_not_found))
        ⊎ ((root : ℕ) × (get_elem? m.nodes root ≡ some id)
            × ((j : ℕ) → j < root → get_elem? m.nodes j ≢ some id)
            × Returns i m root (info_at_id i id))
  unfolding info_at_id
  info_at_id_lem id = elim (id_index_lem m id) [
    | inl (absent, e) ↦ inl (absent, ground (arith, has))
    | inr (root, e, found, first) ↦
        let (r, part, from, ran, good) = at_root-Returns root (get_elem?-lt m.nodes root found) in
        inr (root, found, first, (r, part, from, ground (arith, has), good))
  ]

  -- InfoAtLabel on an Info with a manifest, whose links stay within the nodes and which has a size for
  -- each node, or no sizes: a label that is missing gives an error that names it, and any other
  -- what InfoAtIndex comes to at the index of the label.
  pub info_at_label_lem :
      (label : Str)
      → ((lookup Str_discrete label i.labels ≡ none)
          × (info_at_label i label ≡ err (label_not_found label)))
        ⊎ ((index : ℤ) × (lookup Str_discrete label i.labels ≡ some index)
            × At i m index (info_at_label i label))
  unfolding info_at_label
  info_at_label_lem label = elim (Option-cases (lookup Str_discrete label i.labels)) [
    | inl absent ↦ inl (absent, ground arith)
    | inr (index, e) ↦
        let same : info_at_index i index ≡ info_at_label i label = ground arith in
        inr (index, e, subst (At i m index) same (info_at_index_lem index))
  ]
