-- ===== src/Ipld.antt =====
-- What the repository takes from go-cid and go-ipld-format: content identifiers, the nodes that
-- they name, and the getters that fetch nodes. All of it is a parameter of the model.
use dag.Base.{ℕ, ◌≡◌, ◌≢◌, Str, Option, List, Result, Error, ok}

-- `cid.Cid` with `String`, `cid.Parse` and `cid.Undef`, and `*ipld.Link`.
pub record Ipld : Type 1 where
  pub Cid : Type 0
  pub Link : Type 0
  pub cid_string : Cid → Str
  pub parse : Str → Result Cid
  pub undef : Cid

-- Parsing the text of an identifier gives it back (go-cid: "Parse ... the inverse of String").
abbrev pub ParsesBack : Ipld → Type 0
ParsesBack lib = (c : lib.Cid) → c ≢ lib.undef → lib.parse (lib.cid_string c) ≡ ok c

module _ (lib : Ipld) where
  open lib use {Cid, Link, cid_string}

  -- A value of the interface `dag.Node`; `size` is the pair that `Size()` returns.
  pub record Node : Type 0 where
    pub cid : Cid
    pub links : List Link
    pub size : ℕ × Option Error

  -- `node.Cid().String()`
  abbrev pub node_id : Node → Str
  node_id n = cid_string n.cid

  -- `ipld.NodeGetter`: `get` is its Get, and `get_link` is `link.GetNode(ctx, ng)`.
  pub record NodeGetter : Type 0 where
    pub get : Cid → Result Node
    pub get_link : Link → Result Node
