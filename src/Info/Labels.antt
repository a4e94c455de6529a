-- ===== src/Info/Labels.antt =====
-- Labels point into the manifest.
use dag.Base.{
  ap, ◌∙◌, sym, get_elem?-lt, ℕ, zero, suc, ◌+◌, ◌<◌, ◌≡◌, refl, ◌⊎◌, inl, inr, ◌≢◌, Str,
  Str_discrete, List, [], ◌∷◌, some, Memᴰ, ok, err, lookup, lookup-insert, dec_lt, length,
  get_elem?, arith, index_out_of_range, id_not_found,
}
use mathlib.Core.List.Memᴰ
use dag.Base.Int.{ℤ, pos, negsuc}
use dag.Manifest.{Manifest, id_index, index_from}
use dag.Info.{Info, add_label, add_label_by_id, with_label}

-- Every label is the index of a node.
abbrev pub LabelsInRange : Info → Manifest → Type 0
LabelsInRange i m =
    (label : Str) (index : ℤ)
    → lookup Str_discrete label i.labels ≡ some index
    → (k : ℕ) × (index ≡ pos k) × (k < length m.nodes)

-- AddLabel on an Info that has a manifest: an index out of range is an error, and any other is
-- stored under the label, while the other labels, the manifest and the sizes stay.
pub add_label_lem :
    (i : Info) (m : Manifest) (label other : Str) (index : ℤ)
    → i.manifest ≡ some m
    → (add_label i label index ≡ err index_out_of_range)
        × ((k : ℕ) → k < length m.nodes → index ≢ pos k)
      ⊎ ((j : Info) × (add_label i label index ≡ ok j)
          × ((k : ℕ) × (index ≡ pos k) × (k < length m.nodes))
          × (lookup Str_discrete label j.labels ≡ some index)
          × (other ≢ label
              → lookup Str_discrete other j.labels ≡ lookup Str_discrete other i.labels)
          × (j.manifest ≡ i.manifest)
          × (j.sizes ≡ i.sizes))
unfolding add_label
add_label_lem i m label other (pos k) e = elim (dec_lt k (length m.nodes)) [
  | yes h ↦
      let j = with_label i label (pos k) in
      inr (
        j,
        ground arith,
        (k, refl, h),
        ground (arith, lookup-insert Str_discrete label label (pos k) i.labels),
        λ ne. ground (arith, lookup-insert Str_discrete label other (pos k) i.labels),
        refl,
        refl,
      )
  | no h ↦ inl (ground arith, λ k' h' p. h (ground arith))
]
add_label_lem i m label other (negsuc k) e = inl (ground arith, λ k' h p. cc)

first-cons :
    {id x : Str} (xs : List Str) (k : ℕ)
    → x ≢ id
    → ((j : ℕ) → j < k → get_elem? xs j ≢ some id)
    → (j : ℕ) → j < suc k
    → get_elem? (x ∷ xs) j ≢ some id
first-cons xs k other first zero h = λ e. other (cc)
first-cons xs k other first (suc j) h = first j (omega arith)

-- What a search for `id` from position `i` on may return.
abbrev Searched : Str → ℕ → List Str → ℤ → Type 0
Searched id i xs r =
    (¬ Memᴰ id xs × (r ≡ negsuc 0))
    ⊎ ((k : ℕ) × (r ≡ pos (i + k))
        × (get_elem? xs k ≡ some id)
        × ((j : ℕ) → j < k → get_elem? xs j ≢ some id))

index_from-Searched : (id : Str) (i : ℕ) (xs : List Str) → Searched id i xs (index_from id i xs)
unfolding index_from
index_from-Searched id i [] = inl (Memᴰ.not-nil, refl)
index_from-Searched id i (x ∷ xs) = elim (Str_discrete x id) [
  | yes p ↦ inr (0, ground arith, ap some p, λ j h. absurd (omega arith))
  | no p ↦ elim (index_from-Searched id (suc i) xs) [
    | inl (absent, e) ↦
        inl (λ m. elim (Memᴰ.cases_cons m) [ inl q ↦ p (sym q) | inr t ↦ absent t ], ground arith)
    | inr (k, e, found, first) ↦ inr (suc k, ground arith, found, first-cons xs k p first)
  ]
]

-- IDIndex returns -1 exactly if the identifier is not among the nodes, and otherwise the first
-- position at which it stands.
pub id_index_lem :
    (m : Manifest) (id : Str)
    → (¬ Memᴰ id m.nodes × (id_index m id ≡ negsuc 0))
      ⊎ ((k : ℕ) × (id_index m id ≡ pos k)
          × (get_elem? m.nodes k ≡ some id)
          × ((j : ℕ) → j < k → get_elem? m.nodes j ≢ some id))
unfolding id_index
id_index_lem m id = elim (index_from-Searched id 0 m.nodes) [
  | inl absent ↦ inl absent
  | inr (k, e, found, first) ↦ inr (k, e ∙ ap pos (omega arith), found, first)
]

-- AddLabelByID on an Info that has a manifest: for an identifier that is not among the nodes it
-- returns ErrIDNotFound, and for any other it stores the label with the first position of the
-- identifier. It never returns ErrIndexOutOfRange.
pub add_label_by_id_lem :
    (i : Info) (m : Manifest) (label id : Str)
    → i.manifest ≡ some m
    → (¬ Memᴰ id m.nodes × (add_label_by_id i label id ≡ err id_not_found))
      ⊎ ((k : ℕ) × (get_elem? m.nodes k ≡ some id)
          × ((j : ℕ) → j < k → get_elem? m.nodes j ≢ some id)
          × (add_label_by_id i label id ≡ ok (with_label i label (pos k))))
unfolding add_label_by_id
add_label_by_id_lem i m label id e = elim (id_index_lem m id) [
  | inl (absent, p) ↦ inl (absent, ground arith)
  | inr (k, p, found, first) ↦
      let h = get_elem?-lt m.nodes k found in inr (k, found, first, ground arith)
]
