-- ===== src/Pull/Begin.antt =====
-- dsync/pull.go: NewPull, and what Do does before it asks for blocks one by one.
use dag.Base.{Str, Option, none, some, Result, Error, ok, err, panic, ◌>>=◌, if◌then◌else◌, Dict}
use dag.Ipld.{Ipld, NodeGetter}
use dag.Manifest.{Manifest}
use dag.Info.{Info, info_root_cid}
use dag.Missing.{missing}
use dag.Completion.{new_completion, is_complete}
use dag.Stream.{Archive, add_all_from_car_reader}
use dag.Protocol.{protocol_supports_dag_streaming}

-- The fields of Pull that NewPull and NewPullWithInfo set.
pub record Pull : Type 0 where
  pub path : Str
  pub meta : Dict Str Str
  pub info : Option Info

abbrev pub new_pull : Str → Dict Str Str → Pull
new_pull cid_str meta = record { path = cid_str; meta = meta; info = none }

abbrev pub new_pull_with_info : (lib : Ipld) → Info → Dict Str Str → Pull
new_pull_with_info lib info meta =
    record (new_pull (lib.cid_string (info_root_cid lib info)) meta) { info = some info }

-- The calls of the remote that Do makes before it asks for blocks one by one. `open_block_stream` is
-- there if the remote is a DagStreamable; what it opens is told as AddAllFromCARReader meets it.
pub record Remote : Type 0 where
  pub get_dag_info : Str → Dict Str Str → Result Info
  pub protocol_version : Result Str
  pub open_block_stream : Option (Info → Dict Str Str → Result Archive)

-- What Do comes to: it returns, or it asks for the blocks of a difference one by one.
pub data Way : Type 0 where
  returns : Result (Unit {0}) → Way
  block_by_block : Manifest → Manifest → Way

abbrev nil_or : Option Error → Result (Unit {0})
nil_or none = ok tt
nil_or (some e) = err e

-- The transfer as a stream.
abbrev pub pull_stream : Result Archive → Way
pull_stream opened = returns (opened >>= λ car. nil_or (add_all_from_car_reader car).1)

abbrev pub pull_versioned : Remote → Pull → Info → Manifest → Manifest → Result Str → Way
pull_versioned rem f info m diff (err e) = returns (err e)
pull_versioned rem f info m diff panic = returns panic
pull_versioned rem f info m diff (ok proto_id) = elim rem.open_block_stream [
  | none ↦ block_by_block m diff
  | some open_block_stream ↦
      if protocol_supports_dag_streaming proto_id
      then pull_stream (open_block_stream info f.meta)
      else block_by_block m diff
]

abbrev pub pull_missing : Remote → Pull → Info → Manifest → Result Manifest → Way
pull_missing rem f info m (err e) = returns (err e)
pull_missing rem f info m panic = returns panic
pull_missing rem f info m (ok diff) =
    if is_complete (new_completion m diff)
    then returns (ok tt)
    else pull_versioned rem f info m diff rem.protocol_version

abbrev pub pull_manifest :
    (lib : Ipld) → NodeGetter lib → Remote → Pull → Info → Option Manifest → Way
pull_manifest lib ng rem f info none = returns panic
pull_manifest lib ng rem f info (some m) = pull_missing rem f info m (missing lib ng m)

abbrev pub pull_info : (lib : Ipld) → NodeGetter lib → Remote → Pull → Result Info → Way
pull_info lib ng rem f (err e) = returns (err e)
pull_info lib ng rem f panic = returns panic
pull_info lib ng rem f (ok info) = pull_manifest lib ng rem f info info.manifest

-- Do
unfoldable pub pull_do : (lib : Ipld) → NodeGetter lib → Remote → Pull → Way
unfolding missing new_completion is_complete
pull_do lib ng rem f = elim f.info [
  | none ↦ pull_info lib ng rem f (rem.get_dag_info f.path f.meta)
  | some info ↦ pull_info lib ng rem f (ok info)
]
