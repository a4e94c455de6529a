-- ===== src/Tests/OfArchive.antt =====
-- An archive of the nodes e and f of the sample.
use dag.Base.{true, false, Perm, ◌⊎◌, ◌≡◌, refl, Str, bytes, [], ◌∷◌, ok, err, end_of_file, arith}
use dag.Ipld.{Node}
use dag.Manifest.{Manifest}
use dag.CarReader.{CarReader, new_manifest_car_reader}
use dag.CarReader.Bytes.{read_all}
use dag.CarReader.Getter.{get_many, Served, all_served, one_more, manifest_archive}
use dag.Tests.Sample.{letters, node, fetch, parse_letter}

abbrev leaves : Manifest
leaves = record { links = []; nodes = bytes "f" ∷ bytes "e" ∷ [] }

abbrev frame : Node letters → Str
frame n = n.cid ∷ 7 ∷ []

leaves-Served :
    Served letters fetch frame parse_letter (λ id. ok id) leaves.nodes (node 5 [] ∷ node 4 [] ∷ [])
unfolding parse_letter
leaves-Served =
    let of_e : parse_letter (bytes "e") ≡ ok 4 = refl in
    let of_f : parse_letter (bytes "f") ≡ ok 5 = refl in
    one_more of_f refl refl refl (one_more of_e refl refl refl all_served)

manifest_archive_example :
    (r : CarReader) × (last : CarReader) × (new_manifest_car_reader letters parse_letter
        (λ id. ok id)
        (λ id. ok (bytes "h"))
        (get_many letters fetch frame)
        true
        leaves
      ≡ ok r)
    × (read_all 7 2 r ≡ (last, (104 ∷ 5 ∷ 7 ∷ 4 ∷ 7 ∷ [], err end_of_file)))
    × (((true ≡ true) × Perm last.senders leaves.nodes) ⊎ ((true ≡ false) × (last.senders ≡ [])))
manifest_archive_example =
    manifest_archive letters fetch frame parse_letter (λ id. ok id) (λ id. ok (bytes "h"))
      (bytes "h") leaves (node 5 [] ∷ node 4 [] ∷ []) true 7 2 leaves-Served refl (omega arith)
      (omega arith)
