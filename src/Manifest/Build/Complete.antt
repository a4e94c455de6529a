-- ===== src/Manifest/Build/Complete.antt =====
-- A walk without an error lists all that the root reaches, and records every edge.
use dag.Base.{
  ◌≡◌, refl, sym, subst, ◌⊎◌, inl, inr, Str, Str_discrete, List, ◌∷◌, Memᴰ, ok, Memᴰ-concat, ℕ,
}
use mathlib.Core.List.Memᴰ
use dag.Ipld.{Ipld, Node, NodeGetter, node_id}
use dag.Graph.{Child, Reach, step, ContentAddressed}
use dag.Manifest.Build.{MState, enter, push_link}
use dag.Manifest.Build.Visit.{Visit, Links, seen, fresh, last, link}
use dag.Manifest.Build.Weights.{
  Visited, enter-Visited, enter-Visited_back, Links-Visited, Visit-Visited_self,
}

module _ (lib : Ipld) (ng : NodeGetter lib) where
  -- The link `l` of the node called `id` is recorded, and its target is listed.
  abbrev pub Recorded : MState → Str → lib.Link → Type 0
  Recorded st id l =
      (c : Node lib) × (ng.get_link l ≡ ok c)
      × Visited (node_id lib c) st
      × Memᴰ (id, node_id lib c) st.links

  -- Every listed node is done, but for those that the walk is still inside of.
  abbrev pub Closed : Node lib → List Str → MState → Type 0
  Closed root inside st =
      (n : Node lib)
      → Reach lib ng root n
      → Visited (node_id lib n) st
      → Memᴰ (node_id lib n) inside
        ⊎ ((l : lib.Link) → Memᴰ l n.links → Recorded st (node_id lib n) l)

module _ {lib : Ipld} {ng : NodeGetter lib} where
  mutual
    Visit-links :
        {n : Node lib} {st st' : MState} {w : ℕ}
        → Visit lib ng n st w st'
        → (e : Str × Str) → Memᴰ e st.links
        → Memᴰ e st'.links
    Visit-links (seen h eq s) e m = rw s m
    Visit-links (fresh h walk eq) e m = rw eq (Links-links walk e m)

    Links-links :
        {id : Str} {ls : List lib.Link} {st st' : MState} {w w' : ℕ}
        → Links lib ng id ls w st w' st'
        → (e : Str × Str) → Memᴰ e st.links
        → Memᴰ e st'.links
    Links-links (last eq s) e m = rw s m
    Links-links {id} {st} (link c f visit walk) e m =
        Links-links walk e
          (Visit-links visit e ((Memᴰ-concat e (id, node_id lib c) st.links).1 (inl m)))

  Links-Recorded :
      {id : Str} {ls : List lib.Link} {st st' : MState} {w w' : ℕ}
      → Links lib ng id ls w st w' st'
      → (l : lib.Link) → Memᴰ l ls
      → Recorded lib ng st' id l
  Links-Recorded (last e s) l m = absurd (Memᴰ.not-nil m)
  Links-Recorded {id} {st} (link c f visit walk) l m = elim (Memᴰ.cases_cons m) [
    | inr later ↦ Links-Recorded walk l later
    | inl same ↦ (
      c,
      rw same f,
      Links-Visited walk (node_id lib c) (Visit-Visited_self visit),
      Links-links walk (id, node_id lib c)
          (Visit-links visit (id, node_id lib c)
            ((Memᴰ-concat (id, node_id lib c) (id, node_id lib c) st.links).1 (inr refl))),
    )
  ]

  module _ (root : Node lib) (addressed : ContentAddressed lib ng root) where
    mutual
      pub Visit-Closed :
          {n : Node lib} {st st' : MState} {w : ℕ}
          → Visit lib ng n st w st'
          → Reach lib ng root n
          → (inside : List Str) → Closed lib ng root inside st
          → Closed lib ng root inside st'
      Visit-Closed (seen h eq s) r inside all = rw s all
      Visit-Closed {n} {st} (fresh {mid} h walk eq) r inside all =
          let id = node_id lib n in
          let entered = enter id n.size.0 st in
          let start : Closed lib ng root (id ∷ inside) entered = λ m rm v.
            elim (Str_discrete id (node_id lib m)) [
              | yes same ↦ inl (Memᴰ.head (sym same))
              | no other ↦
                  elim (all m rm (enter-Visited_back id (node_id lib m) n.size.0 st other v)) [
                    | inl k ↦ inl (Memᴰ.tail k)
                    | inr rec ↦ inr λ l k.
                        let (c, f, listed, kept) = rec l k in
                        (c, f, enter-Visited id (node_id lib c) n.size.0 st listed, kept)
                  ]
            ] in
          let ended = Links-Closed walk n r (λ l k. k) (id ∷ inside) start in
          rw eq λ m rm v. elim (ended m rm v) [
            | inr rec ↦ inr rec
            | inl k ↦ elim (Memᴰ.cases_cons k) [
              | inr deeper ↦ inl deeper
              | inl same ↦ inr (
                  subst
                    (λ q. (l : lib.Link) → Memᴰ l q.links → Recorded lib ng mid (node_id lib q) l)
                    (addressed n m r rm (sym same)) (Links-Recorded walk))
            ]
          ]

      pub Links-Closed :
          {id : Str} {ls : List lib.Link} {st st' : MState} {w w' : ℕ}
          → Links lib ng id ls w st w' st'
          → (owner : Node lib) → Reach lib ng root owner
          → ((l : lib.Link) → Memᴰ l ls → Memᴰ l owner.links)
          → (inside : List Str) → Closed lib ng root inside st
          → Closed lib ng root inside st'
      Links-Closed (last eq s) owner r sub inside all = rw s all
      Links-Closed {id} {st} (link {l} c f visit walk) owner r sub inside all =
          let child : Child lib ng owner c = record {
            link = l;
            listed = sub l (Memᴰ.head refl);
            fetched = f;
          } in
          let pushed : Closed lib ng root inside (push_link id (node_id lib c) st) = λ m rm v.
            elim (all m rm v) [
              | inl k ↦ inl k
              | inr rec ↦ inr λ q k.
                  let (c', f', listed, kept) = rec q k in
                  (
                    c',
                    f',
                    listed,
                    (Memᴰ-concat (node_id lib m, node_id lib c') (id, node_id lib c) st.links).1
                        (inl kept),
                  )
            ] in
          Links-Closed walk owner r (λ k q. sub k (Memᴰ.tail q)) inside
            (Visit-Closed visit (step r child) inside pushed)
