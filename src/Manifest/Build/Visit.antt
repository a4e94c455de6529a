-- ===== src/Manifest/Build/Visit.antt =====
-- The walk of addNode as a relation: which state and weight a walk without an error ends with.
use dag.Base.{
  ℕ, zero, suc, ◌+◌, ◌≡◌, Str, Str_discrete, List, [], ◌∷◌, none, some, ok, lookup, arith,
  Option-cases, inl, inr,
}
use dag.Ipld.{Ipld, Node, NodeGetter, node_id}
use dag.Manifest.Build.{
  MState, Walk, done, push_link, enter, set_weight, bind-done, lift, check, Outcome, ◌>>=◌,
  lift-done, check-done, add_links, add_fresh, add_node,
}

module _ (lib : Ipld) (ng : NodeGetter lib) where
  mutual
    pub data Visit : Node lib → MState → ℕ → MState → Type 0 where
      seen :
          {n : Node lib} {st st' : MState} {w size : ℕ}
          → lookup Str_discrete (node_id lib n) st.sizes ≡ some size
          → w ≡ 0
          → st' ≡ st
          → Visit n st w st'
      fresh :
          {n : Node lib} {st mid st' : MState} {w : ℕ}
          → lookup Str_discrete (node_id lib n) st.sizes ≡ none
          → Links (node_id lib n) n.links 0 (enter (node_id lib n) n.size.0 st) w mid
          → st' ≡ set_weight (node_id lib n) w mid
          → Visit n st w st'

    pub data Links : Str → List lib.Link → ℕ → MState → ℕ → MState → Type 0 where
      last : {id : Str} {st st' : MState} {w w' : ℕ} → w' ≡ w → st' ≡ st → Links id [] w st w' st'
      link :
          {id : Str} {l : lib.Link} {ls : List lib.Link} {st mid st' : MState} {w v w' : ℕ}
          (c : Node lib)
          → ng.get_link l ≡ ok c
          → Visit c (push_link id (node_id lib c) st) v mid
          → Links id ls (w + 1 + v) mid w' st'
          → Links id (l ∷ ls) w st w' st'

  abbrev Follows : (Node lib → Walk ℕ) → Type 0
  Follows add =
      (n : Node lib) (st : MState) (w : ℕ) (st' : MState)
      → add n st ≡ (st', done w)
      → Visit n st w st'

  add_links-Links :
      (add : Node lib → Walk ℕ)
      → Follows add
      → (id : Str) (ls : List lib.Link) (w : ℕ) (st : MState) (w' : ℕ) (st' : MState)
      → add_links lib ng add id ls w st ≡ (st', done w')
      → Links id ls w st w' st'
  unfolding add_links
  add_links-Links add ih id [] w st w' st' h = last (ground arith) (ground arith)
  add_links-Links add ih id (l ∷ ls) w st w' st' h =
      let after = λ (c : Node lib). λ (u : MState).
        ◌>>=◌ (add c) (λ v. add_links lib ng add id ls (w + 1 + v))
          (push_link id (node_id lib c) u) in
      let (start, c, fetched, k) = bind-done (lift (ng.get_link l)) after st st' w' h in
      let (same, found) = lift-done (ng.get_link l) st start c fetched in
      let (mid, v, added, k') =
        bind-done (add c) (λ v. add_links lib ng add id ls (w + 1 + v))
          (push_link id (node_id lib c) start) st' w' k in
      link c found (ih c (push_link id (node_id lib c) st) v mid (rw same at added))
        (add_links-Links add ih id ls (w + 1 + v) mid w' st' k')

  add_fresh-Visit :
      (add : Node lib → Walk ℕ)
      → Follows add
      → (n : Node lib) (st : MState) (w : ℕ) (st' : MState)
      → lookup Str_discrete (node_id lib n) st.sizes ≡ none
      → add_fresh lib ng add n st ≡ (st', done w)
      → Visit n st w st'
  unfolding add_fresh
  add_fresh-Visit add ih n st w st' new h =
      let entered = enter (node_id lib n) n.size.0 st in
      let store = λ (v : ℕ). λ (u : MState).
        let r : MState × Outcome ℕ = (set_weight (node_id lib n) v u, done v) in r in
      let walks = add_links lib ng add (node_id lib n) n.links 0 in
      let (start, _, sized, k) =
        bind-done (check n.size.1) (λ _. ◌>>=◌ walks store) entered st' w h in
      let (mid, v, walked, k') = bind-done walks store start st' w k in
      let same = check-done n.size.1 entered start sized in
      let walk = add_links-Links add ih (node_id lib n) n.links 0 start v mid walked in
      let ends : (v ≡ w) × (st' ≡ set_weight (node_id lib n) v mid) = (cc, cc) in
      fresh new (rw (same, ends.0) at walk) (rw ends.0 at (ends.1))

  -- A walk that ends without an error is a derivation of the relation.
  pub add_node-Visit : (fuel : ℕ) → Follows (add_node lib ng fuel)
  unfolding add_node
  add_node-Visit zero n st w st' h = cc
  add_node-Visit (suc fuel) n st w st' h =
      elim (Option-cases (lookup Str_discrete (node_id lib n) st.sizes)) [
        | inl new ↦
            add_fresh-Visit (add_node lib ng fuel) (add_node-Visit fuel) n st w st' new
              (rw (new, add_node) at h)
        | inr (size, old) ↦
            let h' = rw (old, add_node) at h in seen old (ground arith) (ground arith)
      ]
