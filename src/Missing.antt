-- ===== src/Missing.antt =====
-- compare.go: which nodes of a manifest this store lacks.
pub mod Laws
use dag.Base.{
  ◌≡◌, Str, bytes, str_contains, Bool, true, false, ◌||◌, List, [], ◌∷◌, Option, none, some, Result,
  Error, ok, err, panic, index_out_of_range, id_not_found, info_not_found, no_manifest,
  label_not_found, pin_not_supported, remove_not_supported, sid_not_found, hash_mismatch,
  hash_integrity_mismatch, max_retries_reached, end_of_file, unknown_protocol_version, external,
  if◌then◌else◌, ◌>>=◌,
}
use dag.Ipld.{Ipld, NodeGetter}
use dag.Manifest.{Manifest}

abbrev not_found_text : Str
not_found_text = bytes "not found"

-- `errors.Is(err, ipld.ErrNotFound) || strings.Contains(err.Error(), "not found")`. The texts of the
-- named errors are those of the source; the two hashes of a mismatch stand apart from its words.
unfoldable pub is_not_found : Error → Bool
is_not_found index_out_of_range = false
is_not_found id_not_found = true
is_not_found info_not_found = true
is_not_found no_manifest = false
is_not_found (label_not_found label) = true
is_not_found pin_not_supported = false
is_not_found remove_not_supported = false
is_not_found (sid_not_found sid) = true
is_not_found (hash_mismatch expected got) =
    str_contains expected not_found_text || str_contains got not_found_text
is_not_found (hash_integrity_mismatch expected got) =
    str_contains expected not_found_text || str_contains got not_found_text
is_not_found max_retries_reached = false
is_not_found end_of_file = false
is_not_found unknown_protocol_version = false
is_not_found (external is_err_not_found text) = is_err_not_found || str_contains text not_found_text

module _ (lib : Ipld) (ng : NodeGetter lib) where
  -- What the body of the loop appends, if anything, after it has asked the getter for `id`.
  unfoldable pub absent_node : lib.Cid → Result (Option Str)
  unfolding is_not_found
  absent_node id = elim (ng.get id) [
    | ok _ ↦ ok none
    | err e ↦ if is_not_found e then ok (some (lib.cid_string id)) else err e
    | panic ↦ panic
  ]

  unfoldable pub missing_node : Str → Result (Option Str)
  unfolding absent_node
  missing_node idstr = do id ← lib.parse idstr; absent_node id

  abbrev pub add_missing : Option Str → List Str → List Str
  add_missing none nodes = nodes
  add_missing (some id) nodes = id ∷ nodes

  unfoldable pub missing_from : List Str → Result (List Str)
  unfolding missing_node
  missing_from [] = ok []
  missing_from (idstr ∷ rest) = do
    found ← missing_node idstr
    nodes ← missing_from rest
    ok (add_missing found nodes)

  unfoldable pub missing : Manifest → Result Manifest
  unfolding missing_from
  missing m = do nodes ← missing_from m.nodes; ok (record { links = []; nodes = nodes })
