-- ===== src/Service/Queries.antt =====
-- dsync/dsync.go: the answers of a Dsync that change nothing in it.
use dag.Base.{
  ℕ, Str, List, [], ◌∷◌, Option, none, some, Error, ok, err, panic, Dict, if◌then◌else◌,
  remove_not_supported,
}
use dag.Base.Sorting.{Sorting}
use dag.Ipld.{Ipld, NodeGetter}
use dag.Manifest.Build.{Outcome, done, fail, crash, out_of_fuel}
use dag.Info.{Info, new_info}
use dag.Store.{dag_info}
use dag.Service.{Settings, Service}

-- The call of the hook at the end of GetDagInfo.
abbrev checked_info : Settings → Dict Str Str → Info → Outcome Info
checked_info c meta info = elim c.get_dag_info_check [
  | none ↦ done info
  | some check ↦ elim (check info meta) [ none ↦ done info | some e ↦ fail e ]
]

abbrev checked_outcome : Settings → Dict Str Str → Outcome Info → Outcome Info
checked_outcome c meta (done info) = checked_info c meta info
checked_outcome c meta (fail e) = fail e
checked_outcome c meta crash = crash
checked_outcome c meta out_of_fuel = out_of_fuel

-- The part of GetDagInfo behind the look into the store.
unfoldable pub generate_info :
    (lib : Ipld) → NodeGetter lib → Sorting → ℕ → Settings → Str → Dict Str Str → Outcome Info
unfolding new_info
generate_info lib ng srt fuel c hash meta = elim (lib.parse hash) [
  | panic ↦ crash
  | err e ↦ fail e
  | ok id ↦ checked_outcome c meta (new_info lib ng srt fuel id)
]

unfoldable pub get_dag_info :
    (lib : Ipld)
    → NodeGetter lib
    → Sorting
    → ℕ
    → Settings
    → Str
    → Dict Str Str
    → Service
    → Outcome Info
unfolding generate_info
get_dag_info lib ng srt fuel c hash meta ds = elim ds.info_store [
  | none ↦ generate_info lib ng srt fuel c hash meta
  | some infos ↦ elim (dag_info hash infos) [
    | ok info ↦ done info
    | err e ↦ generate_info lib ng srt fuel c hash meta
    | panic ↦ crash
  ]
]

-- RemoveCID: the calls of `Rm`, and the error.
unfoldable pub remove_cid : Settings → Str → Dict Str Str → List Str × Option Error
remove_cid c cid meta =
    let info : Info = record {
      manifest = some (record { links = []; nodes = cid ∷ [] });
      labels = [];
      sizes = none;
    } in
    let unpin : List Str × Option Error = elim c.pin [
      | none ↦ ([], none)
      | some api ↦ (cid ∷ [], api.rm cid)
    ] in
    if c.allow_removes
    then (elim c.remove_check [
      | none ↦ unpin
      | some check ↦ elim (check info meta) [ none ↦ unpin | some e ↦ ([], some e) ]
    ])
    else ([], some remove_not_supported)
