-- ===== src/Info.antt =====
-- The type Info of dag.go: a manifest with labels and sizes.
pub mod Labels
use dag.Base.{
  ℕ, ◌≡◌, Str, Str_discrete, Bool, List, [], ◌∷◌, Option, none, some, Result, Error, ok, err, panic,
  Dict, lookup, insert, length, map, ltb, leb, if◌then◌else◌, index_out_of_range, id_not_found,
  ◌||◌, ◌>>=◌, or_panic, refl, sym, ap, ◌∙◌, length-map,
}
use dag.Base.Int.{ℤ, pos, negsuc, ℤ_discrete}
use dag.Base.Sorting.{Sorting}
use dag.Ipld.{Ipld, NodeGetter}
use dag.Manifest.{Manifest, root_cid, id_index}
use dag.Manifest.Build.{
  Outcome, done, fail, crash, out_of_fuel, MState, read, make_manifest, manifest_of, initial,
  new_manifest,
}

-- A nil map of labels reads as an empty one, so `labels` has no separate nil. `sizes` is `none` for
-- a nil slice: the sub-DAG generator tests for it.
pub record Info : Type 0 where
  pub manifest : Option Manifest
  pub labels : Dict Str ℤ
  pub sizes : Option (List ℕ)

-- `index < 0 || index >= n`
abbrev pub out_of_range : ℤ → ℕ → Bool
out_of_range (pos i) n = leb n i
out_of_range (negsuc i) n = Bool.true

abbrev pub with_label : Info → Str → ℤ → Info
with_label i label index = record i { labels = insert Str_discrete label index i.labels }

-- Returns the Info as it is after the call, which changes it in place.
unfoldable pub add_label : Info → Str → ℤ → Result Info
add_label i label index = do
  m ← or_panic i.manifest
  if out_of_range index (length m.nodes)
      then err index_out_of_range
      else ok (with_label i label index)

unfoldable pub add_label_by_id : Info → Str → Str → Result Info
unfolding add_label ℤ_discrete
add_label_by_id i label id = do
  m ← or_panic i.manifest
  elim (ℤ_discrete (id_index m id) (negsuc 0)) [
    | yes _ ↦ err id_not_found
    | no _ ↦ add_label i label (id_index m id)
  ]

unfoldable pub info_root_cid : (lib : Ipld) → Info → lib.Cid
info_root_cid lib i = elim i.manifest [ none ↦ lib.undef | some m ↦ root_cid lib m ]

module _ (lib : Ipld) (ng : NodeGetter lib) where
  abbrev pub info_of : MState → Info
  info_of st = record {
    manifest = some (manifest_of st);
    labels = [];
    sizes = some (map (λ id. read id st.sizes) st.nodes);
  }

  after_manifest : MState × Outcome (Unit {0}) → Outcome Info
  after_manifest (st, done _) = done (info_of st)
  after_manifest (st, fail e) = fail e
  after_manifest (st, crash) = crash
  after_manifest (st, out_of_fuel) = out_of_fuel

  -- NewInfo returns no Info beside an error.
  unfoldable pub new_info : Sorting → ℕ → lib.Cid → Outcome Info
  unfolding make_manifest after_manifest
  new_info srt fuel id = after_manifest (make_manifest lib ng srt fuel id initial)

  -- What NewInfo returns where NewManifest returns a manifest.
  pub new_info-done :
      (srt : Sorting) (fuel : ℕ) (id : lib.Cid) (m : Manifest)
      → new_manifest lib ng srt fuel id ≡ (m, done tt)
      → (i : Info) × (new_info srt fuel id ≡ done i)
        × (i.manifest ≡ some m)
        × (i.labels ≡ [])
        × ((sizes : List ℕ) → i.sizes ≡ some sizes → length sizes ≡ length m.nodes)
  unfolding new_info new_manifest after_manifest
  new_info-done srt fuel id m ran =
      let st = (make_manifest lib ng srt fuel id initial).0 in
      let is : manifest_of st ≡ m = ap (λ (r : Manifest × Outcome (Unit {0})). r.0) ran in
      let fine : (make_manifest lib ng srt fuel id initial).1 ≡ done tt =
        ap (λ (r : Manifest × Outcome (Unit {0})). r.1) ran in
      (
        info_of st,
        ap (λ (r : Outcome (Unit {0})). after_manifest (st, r)) fine,
        ap some is,
        refl,
        λ sizes e.
            let all : map (λ x. read x st.sizes) st.nodes ≡ sizes = cc e in
            ap length (sym all)
            ∙ length-map (λ x. read x st.sizes) st.nodes
            ∙ ap (λ (k : Manifest). length k.nodes) is,
      )
