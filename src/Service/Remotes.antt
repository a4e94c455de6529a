-- ===== src/Service/Remotes.antt =====
-- dsync/dsync.go: how a Dsync finds the remote of a push or a pull, and what it streams itself.
use dag.Base.{
  ℕ, Str, bytes, Bool, false, none, some, Result, ok, err, panic, external, Dict, has_prefix,
  or_panic, ◌>>=◌, ◌++◌, if◌then◌else◌,
}
use dag.Base.Sorting.{Sorting}
use dag.Ipld.{Ipld, NodeGetter}
use dag.Manifest.{Manifest}
use dag.Manifest.Build.{Outcome, done, fail, crash, out_of_fuel}
use dag.Info.{Info, new_info}
use dag.CarReader.{CarReader}
use dag.Service.{Settings}
use dag.Push.Begin.{Push, new_push}
use dag.Pull.Begin.{Pull, new_pull}

-- DsyncProtocolID
abbrev pub dsync_protocol_id : Str
dsync_protocol_id = bytes "/dsync/0.2.0"

abbrev pub protocol_version : Result Str
protocol_version = ok dsync_protocol_id

-- The types that implement DagSyncable, with what they are made from.
pub data Syncable : Type 0 where
  p2p_client : Str → Syncable
  http_client : Str → Syncable

-- syncableRemote: `decode` is peer.IDB58Decode, and `has_p2p` whether there is a p2pHandler.
unfoldable pub syncable_remote : (Str → Result Str) → Bool → Str → Result Syncable
syncable_remote decode has_p2p remote_addr = elim (decode remote_addr) [
  | panic ↦ panic
  | ok id ↦
      if has_p2p
      then ok (p2p_client id)
      else err (external false (bytes "no p2p host provided to perform p2p dsync"))
  | err e ↦
      if has_prefix remote_addr (bytes "http")
      then ok (http_client remote_addr)
      else err (external false (bytes "unrecognized push address string: " ++ remote_addr))
]

module _ (decode : Str → Result Str) (has_p2p : Bool) where
  -- NewPushInfo, with the remote that the push is for.
  unfoldable pub new_push_info : Info → Str → Bool → Result (Push × Syncable)
  unfolding syncable_remote new_push
  new_push_info info remote_addr pin_on_complete = do
    rem ← syncable_remote decode has_p2p remote_addr
    snd ← new_push info pin_on_complete
    ok (snd, rem)

  abbrev of_result : {A : Type 0} → Result A → Outcome A
  of_result (ok a) = done a
  of_result (err e) = fail e
  of_result panic = crash

  abbrev push_of : Str → Bool → Outcome Info → Outcome (Push × Syncable)
  push_of remote_addr pin_on_complete (done info) =
      of_result (new_push_info info remote_addr pin_on_complete)
  push_of remote_addr pin_on_complete (fail e) = fail e
  push_of remote_addr pin_on_complete crash = crash
  push_of remote_addr pin_on_complete out_of_fuel = out_of_fuel

  -- NewPush of a Dsync.
  unfoldable pub dsync_new_push :
      (lib : Ipld) → NodeGetter lib → Sorting → ℕ → Str → Str → Bool → Outcome (Push × Syncable)
  unfolding new_push_info new_info
  dsync_new_push lib ng srt fuel cid_str remote_addr pin_on_complete = elim (lib.parse cid_str) [
    | panic ↦ crash
    | err e ↦ fail e
    | ok id ↦ push_of remote_addr pin_on_complete (new_info lib ng srt fuel id)
  ]

  -- NewPull of a Dsync.
  unfoldable pub dsync_new_pull : Str → Str → Dict Str Str → Result (Pull × Syncable)
  unfolding syncable_remote
  dsync_new_pull cid_str remote_addr meta = do
    rem ← syncable_remote decode has_p2p remote_addr
    ok (new_pull cid_str meta, rem)

-- GetBlock: `get` is Get of the local blocks, and `read_all` reads what it returns.
abbrev pub get_block :
    {Reader : Type 0} → (Str → Result Reader) → (Reader → Result Str) → Str → Result Str
get_block get read_all hash = do rdr ← get hash; read_all rdr

-- OpenBlockStream: `reader` is NewManifestCARReader over the local nodes.
abbrev stream_of : (Manifest → Result CarReader) → Info → Result CarReader
stream_of reader info = do m ← or_panic info.manifest; reader m

unfoldable pub open_block_stream :
    Settings → (Manifest → Result CarReader) → Info → Dict Str Str → Result CarReader
open_block_stream c reader info meta = elim c.open_block_stream_check [
  | none ↦ stream_of reader info
  | some check ↦ elim (check info meta) [ none ↦ stream_of reader info | some e ↦ err e ]
]
