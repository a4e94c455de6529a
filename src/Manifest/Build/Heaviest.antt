-- ===== src/Manifest/Build/Heaviest.antt =====
-- Which weights a walk assigns: the node that it starts at ends up heavier than all that it adds.
use dag.Base.{
  ℕ, ◌≤◌, ◌<◌, ◌≡◌, refl, ◌≢◌, ◌∙◌, Str, Str_discrete, List, lookup, arith, Option-cases, inl, inr,
}
use dag.Ipld.{Ipld, Node, NodeGetter, node_id}
use dag.Manifest.Build.{MState, enter, read}
use dag.Manifest.Build.Visit.{Visit, Links, seen, fresh, last, link}
use dag.Manifest.Build.Weights.{
  Visited, read-insert, read-insert_self, enter-Visited, enter-Visited_back, Visit-Visited,
  Links-le,
}

module _ {lib : Ipld} {ng : NodeGetter lib} where
  mutual
    -- A node that is listed already keeps its weight.
    pub Visit-old :
        {n : Node lib} {st st' : MState} {w : ℕ}
        → Visit lib ng n st w st'
        → (x : Str) → Visited x st
        → read x st'.weights ≡ read x st.weights
    Visit-old (seen h e s) x v = rw s
    Visit-old {n} {st} (fresh {mid} {w} h walk e) x v = rw e (
        read-insert (node_id lib n) x w mid (λ same. v (rw (← same) h))
        ∙ Links-old walk x (enter-Visited (node_id lib n) x n.size.0 st v))

    pub Links-old :
        {id : Str} {ls : List lib.Link} {st st' : MState} {w w' : ℕ}
        → Links lib ng id ls w st w' st'
        → (x : Str) → Visited x st
        → read x st'.weights ≡ read x st.weights
    Links-old (last e s) x v = rw s
    Links-old (link c f visit walk) x v =
        Links-old walk x (Visit-Visited visit x v) ∙ Visit-old visit x v

  mutual
    pub Visit-new :
        {n : Node lib} {st st' : MState} {w : ℕ}
        → Visit lib ng n st w st'
        → (x : Str) → ¬ Visited x st
        → Visited x st'
        → (read x st'.weights ≤ w) × (node_id lib n ≢ x → read x st'.weights < w)
    Visit-new (seen h e s) x new v = absurd (new (rw s at v))
    Visit-new {n} {st} (fresh {mid} {w} h walk e) x new v = elim (Str_discrete (node_id lib n) x) [
      | yes same ↦
          rw (e, ← same, read-insert_self (node_id lib n) w mid)
            (omega arith, λ other. absurd (other refl))
      | no other ↦
          let entered = enter (node_id lib n) n.size.0 st in
          let unlisted = λ (listed : Visited x entered).
            new (enter-Visited_back (node_id lib n) x n.size.0 st other listed) in
          let below = Links-new walk x unlisted (rw e at v) in
          rw (e, read-insert (node_id lib n) x w mid other) (omega arith, λ _. below)
    ]

    pub Links-new :
        {id : Str} {ls : List lib.Link} {st st' : MState} {w w' : ℕ}
        → Links lib ng id ls w st w' st'
        → (x : Str) → ¬ Visited x st
        → Visited x st'
        → read x st'.weights < w'
    Links-new (last e s) x new v = absurd (new (rw s at v))
    Links-new {w'} (link {mid} c f visit walk) x new v =
        elim (Option-cases (lookup Str_discrete x mid.sizes)) [
          | inl e ↦ Links-new walk x (λ listed. listed e) v
          | inr (size, e) ↦
              let listed : Visited x mid = λ k. cc in
              omega
                (arith, Links-old walk x listed, (Visit-new visit x new listed).0, Links-le walk)
        ]

  -- A node that the walk adds gets the walk's weight.
  pub Visit-self :
      {n : Node lib} {st st' : MState} {w : ℕ}
      → Visit lib ng n st w st'
      → ¬ Visited (node_id lib n) st
      → read (node_id lib n) st'.weights ≡ w
  Visit-self (seen h e s) new = absurd (new (λ k. cc))
  Visit-self {n} (fresh {mid} {w} h walk e) new = rw e (read-insert_self (node_id lib n) w mid)
