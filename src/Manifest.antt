-- ===== src/Manifest.antt =====
-- The type Manifest of dag.go with its two look-ups.
pub mod Build
use dag.Base.{
  ℕ, suc, ◌≡◌, Str, Str_discrete, List, [], ◌∷◌, Result, ok, err, panic, ite, Option, none, some,
}
use dag.Base.Int.{ℤ, pos, negsuc}
use dag.Ipld.{Ipld}

-- `Links [][2]int` holds indexes into `nodes`, so natural numbers; a nil slice is the empty list.
pub record Manifest : Type 0 where
  pub links : List (ℕ × ℕ)
  pub nodes : List Str

module _ (lib : Ipld) where
  parse_or_undef : Result lib.Cid → lib.Cid
  parse_or_undef (ok c) = c
  parse_or_undef (err e) = lib.undef
  parse_or_undef panic = lib.undef

  first_cid : List Str → lib.Cid
  unfolding parse_or_undef
  first_cid [] = lib.undef
  first_cid (id ∷ rest) = parse_or_undef (lib.parse id)

  unfoldable pub root_cid : Manifest → lib.Cid
  unfolding first_cid
  root_cid m = first_cid m.nodes

-- The loop of IDIndex from position `i` on.
unfoldable pub index_from : Str → ℕ → List Str → ℤ
index_from id i [] = negsuc 0
index_from id i (node ∷ rest) = ite (Str_discrete node id) (pos i) (index_from id (suc i) rest)

unfoldable pub id_index : Manifest → Str → ℤ
unfolding index_from
id_index m id = index_from id 0 m.nodes
