-- ===== src/Manifest/Build/Sound.antt =====
-- A walk lists nothing but what the root reaches, and records nothing but its edges.
use dag.Base.{◌≡◌, refl, ◌⊎◌, inl, inr, Str, Str_discrete, List, Memᴰ, Memᴰ-concat, ℕ}
use dag.Ipld.{Ipld, Node, NodeGetter, node_id}
use dag.Graph.{Child, Reach, step, Named, Edge}
use dag.Manifest.Build.{MState}
use dag.Manifest.Build.Visit.{Visit, Links, seen, fresh, last, link}
use dag.Manifest.Build.Weights.{Visited, enter-Visited_back}

module _ {lib : Ipld} {ng : NodeGetter lib} (root : Node lib) where
  mutual
    pub Visit-Named :
        {n : Node lib} {st st' : MState} {w : ℕ}
        → Visit lib ng n st w st'
        → Reach lib ng root n
        → (x : Str) → Visited x st'
        → Visited x st ⊎ Named lib ng root x
    Visit-Named (seen h e s) r x v = inl (rw s at v)
    Visit-Named {n} {st} (fresh h walk e) r x v =
        elim (Links-Named walk n r (λ l m. m) x (rw e at v)) [
          | inr named ↦ inr named
          | inl listed ↦ elim (Str_discrete (node_id lib n) x) [
            | yes same ↦ inr (n, r, same)
            | no other ↦ inl (enter-Visited_back (node_id lib n) x n.size.0 st other listed)
          ]
        ]

    pub Links-Named :
        {id : Str} {ls : List lib.Link} {st st' : MState} {w w' : ℕ}
        → Links lib ng id ls w st w' st'
        → (owner : Node lib) → Reach lib ng root owner
        → ((l : lib.Link) → Memᴰ l ls → Memᴰ l owner.links)
        → (x : Str) → Visited x st'
        → Visited x st ⊎ Named lib ng root x
    Links-Named (last e s) owner r sub x v = inl (rw s at v)
    Links-Named (link {l} c f visit walk) owner r sub x v =
        let child : Child lib ng owner c = record {
          link = l;
          listed = sub l (Memᴰ.head refl);
          fetched = f;
        } in
        elim (Links-Named walk owner r (λ k m. sub k (Memᴰ.tail m)) x v) [
          | inr named ↦ inr named
          | inl listed ↦ Visit-Named visit (step r child) x listed
        ]

  mutual
    pub Visit-Edge :
        {n : Node lib} {st st' : MState} {w : ℕ}
        → Visit lib ng n st w st'
        → Reach lib ng root n
        → (e : Str × Str) → Memᴰ e st'.links
        → Memᴰ e st.links ⊎ Edge lib ng root e
    Visit-Edge (seen h eq s) r e m = inl (rw s at m)
    Visit-Edge {n} (fresh h walk eq) r e m = Links-Edge walk n refl r (λ l k. k) e (rw eq at m)

    pub Links-Edge :
        {id : Str} {ls : List lib.Link} {st st' : MState} {w w' : ℕ}
        → Links lib ng id ls w st w' st'
        → (owner : Node lib) → node_id lib owner ≡ id
        → Reach lib ng root owner
        → ((l : lib.Link) → Memᴰ l ls → Memᴰ l owner.links)
        → (e : Str × Str) → Memᴰ e st'.links
        → Memᴰ e st.links ⊎ Edge lib ng root e
    Links-Edge (last eq s) owner o r sub e m = inl (rw s at m)
    Links-Edge {id} {st} (link {l} c f visit walk) owner o r sub e m =
        let child : Child lib ng owner c = record {
          link = l;
          listed = sub l (Memᴰ.head refl);
          fetched = f;
        } in
        elim (Links-Edge walk owner o r (λ k q. sub k (Memᴰ.tail q)) e m) [
          | inr edge ↦ inr edge
          | inl old ↦ elim (Visit-Edge visit (step r child) e old) [
            | inr edge ↦ inr edge
            | inl pushed ↦ elim ((Memᴰ-concat e (id, node_id lib c) st.links).0 pushed) [
              | inl older ↦ inl older
              | inr new ↦ inr (owner, c, r, child, rw o new)
            ]
          ]
        ]
