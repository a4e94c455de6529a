-- ===== src/Graph.antt =====
-- What a DAG is, for a node getter: the nodes that links lead to from a root, and the edges.
use dag.Base.{◌≡◌, Str, Memᴰ, ok}
use dag.Ipld.{Ipld, Node, NodeGetter, node_id}

module _ (lib : Ipld) (ng : NodeGetter lib) where
  pub record Child (n c : Node lib) : Type 0 where
    pub link : lib.Link
    pub listed : Memᴰ link n.links
    pub fetched : ng.get_link link ≡ ok c

  pub data Reach (root : Node lib) : Node lib → Type 0 where
    here : Reach root root
    step : {n c : Node lib} → Reach root n → Child n c → Reach root c

  -- Content addressing: below `root` an identifier names one node.
  abbrev pub ContentAddressed : Node lib → Type 0
  ContentAddressed root =
      (m n : Node lib) → Reach root m → Reach root n → node_id lib m ≡ node_id lib n → m ≡ n

  module _ (root : Node lib) where
    -- `x` names a node of the DAG.
    abbrev pub Named : Str → Type 0
    Named x = (n : Node lib) × Reach root n × (node_id lib n ≡ x)

    -- The pair names the two ends of an edge of the DAG.
    abbrev pub Edge : Str × Str → Type 0
    Edge e =
        (n : Node lib) × (c : Node lib) × Reach root n
        × Child n c
        × (e ≡ (node_id lib n, node_id lib c))
