-- ===== src/Manifest/Build/Walked.antt =====
-- What a walk from the root leaves behind, before and after the sorting.
use mathlib.Core.List.{Nodup-nil}
use mathlib.Core.List.Memᴰ
use dag.Base.{
  ℕ, ◌≡◌, ◌++◌, ◌↔◌, refl, ◌∙◌, sym, ap, subst, inl, inr, Str, Str_discrete, List, [], ◌∷◌, Memᴰ,
  Nodup, none, ok, lookup, lookup_iff, keys, keys-insert_fresh, Nodup-concat, Mem-Memᴰ,
}
use dag.Base.Sorting.{Sorting}
use dag.Ipld.{Ipld, Node, NodeGetter, node_id}
use dag.Graph.{Child, Reach, here, step, ContentAddressed, Named, Edge}
use dag.Manifest.{Manifest}
use dag.Manifest.Build.{
  MState, done, lift, enter, bind-done, initial, finish, modify, add_node, make_manifest,
  manifest_of, new_manifest,
}
use dag.Manifest.Build.Visit.{Visit, Links, seen, fresh, last, link, add_node-Visit}
use dag.Manifest.Build.Weights.{Visited, Visit-Visited_self}
use dag.Manifest.Build.Sound.{Visit-Named, Visit-Edge}
use dag.Manifest.Build.Complete.{Recorded, Visit-Closed}

abbrev IsOnce : MState → Type 0
IsOnce st = (keys st.sizes ≡ st.nodes) × Nodup st.nodes

enter-IsOnce :
    (id : Str) (size : ℕ) (st : MState)
    → lookup Str_discrete id st.sizes ≡ none
    → IsOnce st
    → IsOnce (enter id size st)
enter-IsOnce id size st new (same, once) = (
  keys-insert_fresh Str_discrete id size st.sizes new ∙ ap (λ ks. ks ++ id ∷ []) same,
  Nodup-concat st.nodes id once
      λ m. (lookup_iff Str_discrete id st.sizes).1 (rw same (Mem-Memᴰ Str_discrete m)) new,
)

module _ {lib : Ipld} {ng : NodeGetter lib} where
  mutual
    Visit-IsOnce :
        {n : Node lib} {st st' : MState} {w : ℕ} → Visit lib ng n st w st' → IsOnce st → IsOnce st'
    Visit-IsOnce (seen h e s) k = rw s k
    Visit-IsOnce {n} {st} (fresh h walk e) k =
        rw e (Links-IsOnce walk (enter-IsOnce (node_id lib n) n.size.0 st h k))

    Links-IsOnce :
        {id : Str} {ls : List lib.Link} {st st' : MState} {w w' : ℕ}
        → Links lib ng id ls w st w' st'
        → IsOnce st
        → IsOnce st'
    Links-IsOnce (last e s) k = rw s k
    Links-IsOnce (link c f v walk) k = Links-IsOnce walk (Visit-IsOnce v k)

module _ {lib : Ipld} {ng : NodeGetter lib} {root : Node lib} {st : MState} {w : ℕ}
    (walk : Visit lib ng root initial w st) where
  pub walked-IsOnce : IsOnce st
  walked-IsOnce = Visit-IsOnce walk (refl, Nodup-nil)

  pub Visited-iff_Memᴰ : (x : Str) → Visited x st ↔ Memᴰ x st.nodes
  Visited-iff_Memᴰ x = rw (← walked-IsOnce.0) (lookup_iff Str_discrete x st.sizes)

  pub nothing : (x : Str) → ¬ Visited x initial
  unfolding lookup
  nothing x v = v refl

  pub walked_Named : (x : Str) → Visited x st → Named lib ng root x
  walked_Named x v = elim (Visit-Named root walk here x v) [
    | inl old ↦ absurd (nothing x old)
    | inr named ↦ named
  ]

  pub walked_Edge : (e : Str × Str) → Memᴰ e st.links → Edge lib ng root e
  walked_Edge e m = elim (Visit-Edge root walk here e m) [
    | inl old ↦ absurd (Memᴰ.not-nil old)
    | inr edge ↦ edge
  ]

  module _ (addressed : ContentAddressed lib ng root) where
    walked_Recorded :
        (n : Node lib)
        → Reach lib ng root n
        → Visited (node_id lib n) st
        → (l : lib.Link) → Memᴰ l n.links
        → Recorded lib ng st (node_id lib n) l
    walked_Recorded n r v =
        elim (Visit-Closed root addressed walk here [] (λ m rm old. absurd (nothing _ old)) n r v) [
          | inl inside ↦ absurd (Memᴰ.not-nil inside)
          | inr rec ↦ rec
        ]

    Child-Recorded :
        (n c : Node lib)
        → Reach lib ng root n
        → Visited (node_id lib n) st
        → Child lib ng n c
        → Visited (node_id lib c) st × Memᴰ (node_id lib n, node_id lib c) st.links
    Child-Recorded n c r v edge =
        let (c', f, listed, kept) = walked_Recorded n r v edge.link edge.listed in
        let same : c' ≡ c = cc (sym f ∙ edge.fetched) in
        subst (λ k. Visited (node_id lib k) st × Memᴰ (node_id lib n, node_id lib k) st.links) same
          (listed, kept)

    pub walked_all : (n : Node lib) → Reach lib ng root n → Visited (node_id lib n) st
    walked_all n here = Visit-Visited_self walk
    walked_all n (step {n = m} r edge) = (Child-Recorded m n r (walked_all m r) edge).0

    pub walked_edges :
        (n c : Node lib)
        → Reach lib ng root n
        → Child lib ng n c
        → Memᴰ (node_id lib n, node_id lib c) st.links
    walked_edges n c r edge = (Child-Recorded n c r (walked_all n r) edge).1

make_manifest-Visit :
    (lib : Ipld) (ng : NodeGetter lib) (srt : Sorting) (fuel : ℕ) (id : lib.Cid) (root : Node lib)
    (st' : MState)
    → ng.get id ≡ ok root
    → make_manifest lib ng srt fuel id initial ≡ (st', done tt)
    → (st : MState) × (w : ℕ) × (add_node lib ng fuel root initial ≡ (st, done w))
      × Visit lib ng root initial w st
      × (st' ≡ finish srt st)
unfolding make_manifest
make_manifest-Visit lib ng srt fuel id root st' got h =
    let (st, w, walked, sorted) =
      bind-done (add_node lib ng fuel root) (λ _. modify (finish srt)) initial st' tt
        (rw (got, make_manifest, lift) at h) in
    (st, w, walked, add_node-Visit lib ng fuel root initial w st walked, cc)

-- A run of NewManifest without an error is a walk from the root and the sorting behind it.
pub new_manifest-Visit :
    (lib : Ipld) (ng : NodeGetter lib) (srt : Sorting) (fuel : ℕ) (id : lib.Cid) (root : Node lib)
    (m : Manifest)
    → ng.get id ≡ ok root
    → new_manifest lib ng srt fuel id ≡ (m, done tt)
    → (st : MState) × (w : ℕ) × (add_node lib ng fuel root initial ≡ (st, done w))
      × Visit lib ng root initial w st
      × (m ≡ manifest_of (finish srt st))
unfolding new_manifest
new_manifest-Visit lib ng srt fuel id root m got h =
    let r = make_manifest lib ng srt fuel id initial in
    let (st, w, walked, walk, same) =
      make_manifest-Visit lib ng srt fuel id root r.0 got (λ i. (r.0, (h i).1)) in
    (st, w, walked, walk, sym (ap (λ x. x.0) h) ∙ ap manifest_of same)
