-- ===== src/Push/Begin.antt =====
-- dsync/push.go: NewPush, and what Do does before blocks are sent one by one.
use dag.Base.{
  ℕ, Str, Bool, [], ◌∷◌, Option, none, some, Result, ok, err, panic, or_panic, ◌>>=◌, if◌then◌else◌,
  Dict,
}
use dag.Manifest.{Manifest}
use dag.Info.{Info}
use dag.CarReader.{CarReader}
use dag.Protocol.{protocol_supports_dag_streaming}
use dag.Push.{parallelism_of}

-- The fields of Push that NewPush and SetMeta set. `parallelism` is the number of senders.
pub record Push : Type 0 where
  pub pin_on_complete : Bool
  pub info : Info
  pub manifest : Manifest
  pub meta : Dict Str Str
  pub parallelism : ℕ

-- NewPush. A nil manifest panics.
unfoldable pub new_push : Info → Bool → Result Push
new_push info pin_on_complete = do
  m ← or_panic info.manifest
  ok (record {
    pin_on_complete = pin_on_complete;
    info = info;
    manifest = m;
    meta = [];
    parallelism = parallelism_of m;
  })

abbrev pub set_meta : Dict Str Str → Push → Push
set_meta meta snd = record snd { meta = meta }

-- The calls of the remote that Do makes before it sends blocks one by one, and NewManifestCARReader
-- over the local blocks. `receive_blocks` is there if the remote is a DagStreamable.
pub record Remote : Type 0 where
  pub new_receive_session : Info → Bool → Dict Str Str → Result (Str × Manifest)
  pub protocol_version : Result Str
  pub receive_blocks : Option (Str → CarReader → Result (Unit {0}))
  pub reader : Manifest → Result CarReader

-- What Do comes to: it returns, or it sends the blocks of a difference one by one in a session.
pub data Way : Type 0 where
  returns : Result (Unit {0}) → Way
  block_by_block : Str → Manifest → Way

-- The transfer as a stream.
abbrev pub push_stream : Str → (Str → CarReader → Result (Unit {0})) → Result CarReader → Way
push_stream sid receive_blocks r = returns (r >>= receive_blocks sid)

abbrev pub push_versioned : Remote → Str → Manifest → Result Str → Way
push_versioned rem sid diff (err e) = returns (err e)
push_versioned rem sid diff panic = returns panic
push_versioned rem sid diff (ok proto_id) = elim rem.receive_blocks [
  | none ↦ block_by_block sid diff
  | some receive_blocks ↦
      if protocol_supports_dag_streaming proto_id
      then push_stream sid receive_blocks (rem.reader diff)
      else block_by_block sid diff
]

abbrev pub push_session : Remote → Result (Str × Manifest) → Way
push_session rem (err e) = returns (err e)
push_session rem panic = returns panic
push_session rem (ok (sid, diff)) = elim diff.nodes [
  | [] ↦ returns (ok tt)
  | _ ∷ _ ↦ push_versioned rem sid diff rem.protocol_version
]

-- Do
unfoldable pub push_do : Remote → Push → Way
push_do rem snd = push_session rem (rem.new_receive_session snd.info snd.pin_on_complete snd.meta)
