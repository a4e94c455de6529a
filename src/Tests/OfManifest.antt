-- ===== src/Tests/OfManifest.antt =====
-- NewManifest on the sample.
use dag.Base.{
  Memᴰ, ◌≡◌, ◌≢◌, ◌↔◌, ◌<◌, ◌≤◌, refl, Str, bytes, List, [], ◌∷◌, Mem, Pairwise, some, arith,
  lookup, insert, str_lt, Str_discrete, get_elem?,
}
use dag.Ipld.{node_id, Node}
use dag.Graph.{Reach, Child, Named, here, step}
use dag.SubDag.OfDag.{Cuts, cut_new_info}
use dag.Manifest.{Manifest}
use dag.Manifest.Build.{done, read, initial, new_manifest, add_node}
use dag.Manifest.Build.Correct.{
  new_manifest_nodes, new_manifest_root_first, new_manifest_links, new_manifest_order,
  new_manifest_root_weight,
}
use dag.Manifest.Build.LinkOrder.{Lexicographic, new_manifest_link_keys, new_manifest_link_order}
use dag.Manifest.Build.Total.{new_manifest_returns}
use dag.Tests.Insertion.{insertion, insertion_sort}
use dag.Tests.Sample.{
  letters, getter, root, node, names, root-ContentAddressed, names-Covers, root-Fetchable,
}

abbrev described : Manifest
described = record { links = (0, 1) ∷ (0, 2) ∷ (1, 3) ∷ (2, 4) ∷ (3, 5) ∷ []; nodes = names }

runs : new_manifest letters getter insertion 7 0 ≡ (described, done tt)
unfolding new_manifest insertion_sort lookup insert str_lt Str_discrete
runs = refl

root-listed : Memᴰ (node_id letters root) names
root-listed = Memᴰ.head refl

new_manifest_nodes_example : Mem (bytes "f") names ↔ ∥ Named letters getter root (bytes "f") ∥₁
new_manifest_nodes_example =
    new_manifest_nodes letters getter insertion 7 0 root described refl runs root-ContentAddressed
      (bytes "f")

new_manifest_root_first_example : (rest : List Str) × (names ≡ bytes "a" ∷ rest)
new_manifest_root_first_example =
    new_manifest_root_first letters getter insertion 7 0 root described refl runs
      root-ContentAddressed

new_manifest_links_example :
    Mem (2, 4) described.links
    ↔ ∥ (
        (n : Node letters) × (c : Node letters) × Reach letters getter root n
        × Child letters getter n c
        × (get_elem? names 2 ≡ some (node_id letters n))
        × (get_elem? names 4 ≡ some (node_id letters c))) ∥₁
new_manifest_links_example =
    new_manifest_links letters getter insertion 7 0 root described refl runs root-ContentAddressed 2
      4

new_manifest_order_example :
    Pairwise
      (λ a b.
        read b (add_node letters getter 7 root initial).0.weights
        ≤ read a (add_node letters getter 7 root initial).0.weights)
      names
new_manifest_order_example =
    new_manifest_order letters getter insertion 7 0 root described refl runs

new_manifest_root_weight_example :
    (read (bytes "a") (add_node letters getter 7 root initial).0.weights ≡ 5)
    × ((x : Str)
        → Mem x names
        → x ≢ bytes "a"
        → read x (add_node letters getter 7 root initial).0.weights
          < read (bytes "a") (add_node letters getter 7 root initial).0.weights)
new_manifest_root_weight_example =
    new_manifest_root_weight letters getter insertion 7 0 root described refl runs

new_manifest_link_order_example : Pairwise Lexicographic described.links
new_manifest_link_order_example =
    new_manifest_link_order letters getter insertion 7 0 root described refl runs
      root-ContentAddressed (omega arith)

new_manifest_link_keys_example : 1 < 3
new_manifest_link_keys_example =
    new_manifest_link_keys letters getter insertion 7 0 root described refl runs 1 3 (0, 2) (2, 4)
      refl refl (omega arith)

new_manifest_returns_example :
    (m : Manifest) × (new_manifest letters getter insertion 7 0 ≡ (m, done tt))
new_manifest_returns_example =
    new_manifest_returns letters getter names insertion 7 0 root names-Covers root-listed
      (omega arith) refl root-Fetchable

c_reached : Reach letters getter root (node 2 (4 ∷ []))
c_reached = step here (record { link = 2; listed = Memᴰ.tail (Memᴰ.head refl); fetched = refl })

cut_new_info_example : Cuts letters getter names insertion 7 0 root (node 2 (4 ∷ []))
cut_new_info_example =
    cut_new_info letters getter names insertion 7 0 root names-Covers root-listed (omega arith) refl
      root-Fetchable root-ContentAddressed (node 2 (4 ∷ [])) c_reached
