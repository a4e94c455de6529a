-- ===== src/Manifest/Build/Weights.antt =====
-- What a walk does to the lists and to the weights.
use dag.Base.{
  ℕ, ◌+◌, ◌≤◌, ◌≡◌, ◌≢◌, ◌∙◌, ap, Str, Str_discrete, List, [], ◌∷◌, ◌++◌, none, lookup,
  lookup-insert, keys, keys-insert_fresh, length, length-concat, arith,
}
use dag.Ipld.{Ipld, Node, NodeGetter, node_id}
use dag.Manifest.Build.{MState, enter, set_weight, read}
use dag.Manifest.Build.Visit.{Visit, Links, seen, fresh, last, link}

abbrev pub Visited : Str → MState → Type 0
Visited x st = lookup Str_discrete x st.sizes ≢ none

pub read-insert :
    (k j : Str) (n : ℕ) (st : MState)
    → k ≢ j
    → read j (set_weight k n st).weights ≡ read j st.weights
read-insert k j n st h = ground (arith, lookup-insert Str_discrete k j n st.weights)

pub read-insert_self : (k : Str) (n : ℕ) (st : MState) → read k (set_weight k n st).weights ≡ n
read-insert_self k n st = ground (arith, lookup-insert Str_discrete k k n st.weights)

pub enter-Visited : (k j : Str) (n : ℕ) (st : MState) → Visited j st → Visited j (enter k n st)
enter-Visited k j n st h = ground (arith, lookup-insert Str_discrete k j n st.sizes)

pub enter-Visited_back :
    (k j : Str) (n : ℕ) (st : MState) → k ≢ j → Visited j (enter k n st) → Visited j st
enter-Visited_back k j n st h v = ground (arith, lookup-insert Str_discrete k j n st.sizes)

pub enter-Visited_self : (k : Str) (n : ℕ) (st : MState) → Visited k (enter k n st)
enter-Visited_self k n st = ground (arith, lookup-insert Str_discrete k k n st.sizes)

module _ {lib : Ipld} {ng : NodeGetter lib} where
  mutual
    -- The weight of a walk is the number of links that it records.
    pub Visit-count :
        {n : Node lib} {st st' : MState} {w : ℕ}
        → Visit lib ng n st w st'
        → length st'.links ≡ length st.links + w
    Visit-count (seen h e s) = ground arith
    Visit-count (fresh h walk e) = rw e (omega (arith, Links-count walk))

    pub Links-count :
        {id : Str} {ls : List lib.Link} {st st' : MState} {w w' : ℕ}
        → Links lib ng id ls w st w' st'
        → length st'.links + w ≡ length st.links + w'
    Links-count (last e s) = ground arith
    Links-count {id} {st} (link c f v walk) =
        omega (arith, Visit-count v, Links-count walk, length-concat st.links (id, node_id lib c))

  mutual
    pub Visit-keys :
        {n : Node lib} {st st' : MState} {w : ℕ}
        → Visit lib ng n st w st'
        → keys st.sizes ≡ st.nodes
        → keys st'.sizes ≡ st'.nodes
    Visit-keys (seen h e s) k = rw s k
    Visit-keys {n} {st} (fresh h walk e) k = rw e (
        Links-keys walk (
          keys-insert_fresh Str_discrete (node_id lib n) n.size.0 st.sizes h
          ∙ ap (λ ks. ks ++ node_id lib n ∷ []) k))

    pub Links-keys :
        {id : Str} {ls : List lib.Link} {st st' : MState} {w w' : ℕ}
        → Links lib ng id ls w st w' st'
        → keys st.sizes ≡ st.nodes
        → keys st'.sizes ≡ st'.nodes
    Links-keys (last e s) k = rw s k
    Links-keys (link c f v walk) k = Links-keys walk (Visit-keys v k)

  mutual
    pub Visit-Visited :
        {n : Node lib} {st st' : MState} {w : ℕ}
        → Visit lib ng n st w st'
        → (x : Str) → Visited x st
        → Visited x st'
    Visit-Visited (seen h e s) x v = rw s v
    Visit-Visited {n} {st} (fresh h walk e) x v =
        rw e (Links-Visited walk x (enter-Visited (node_id lib n) x n.size.0 st v))

    pub Links-Visited :
        {id : Str} {ls : List lib.Link} {st st' : MState} {w w' : ℕ}
        → Links lib ng id ls w st w' st'
        → (x : Str) → Visited x st
        → Visited x st'
    Links-Visited (last e s) x v = rw s v
    Links-Visited (link c f v walk) x h = Links-Visited walk x (Visit-Visited v x h)

  -- A walk lists its own node.
  pub Visit-Visited_self :
      {n : Node lib} {st st' : MState} {w : ℕ}
      → Visit lib ng n st w st'
      → Visited (node_id lib n) st'
  Visit-Visited_self (seen h e s) = rw s (λ k. cc)
  Visit-Visited_self {n} {st} (fresh h walk e) =
      rw e (Links-Visited walk (node_id lib n) (enter-Visited_self (node_id lib n) n.size.0 st))

  pub Links-le :
      {id : Str} {ls : List lib.Link} {st st' : MState} {w w' : ℕ}
      → Links lib ng id ls w st w' st'
      → w ≤ w'
  Links-le (last e s) = ground arith
  Links-le (link c f v walk) = omega (arith, Links-le walk)
