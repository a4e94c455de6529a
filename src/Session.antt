-- ===== src/Session.antt =====
-- dsync/session.go: one transfer, as its receiver sees it. The goroutines that send the progress to
-- `progCh` change nothing of a session and are left out.
pub mod Names
use dag.Base.{
  Str, Str_discrete, Bool, true, false, Option, none, some, Result, Error, ok, err, panic, Dict,
  or_panic, ◌>>=◌, hash_mismatch, if◌then◌else◌,
}
use dag.Ipld.{Ipld, NodeGetter}
use dag.Manifest.{Manifest}
use dag.Info.{Info}
use dag.Missing.{missing}
use dag.Completion.{Completion, new_completion, mark, is_complete}

-- ReceiveResponseStatus
pub data Status : Type 0 where
  status_errored : Status
  status_ok : Status
  status_retry : Status

-- ReceiveResponse
pub record Response : Type 0 where
  pub hash : Str
  pub status : Status
  pub error : Option Error

pub record Session : Type 0 where
  pub id : Str
  pub pin : Bool
  pub meta : Dict Str Str
  pub info : Info
  pub diff : Manifest
  pub prog : Completion
  pub fin : Bool

-- newSession, where `random` is the new name. NewCompletion reads both manifests, so a nil one
-- panics.
unfoldable pub new_session :
    (lib : Ipld) → NodeGetter lib → Str → Info → Bool → Bool → Dict Str Str → Result Session
unfolding missing new_completion
new_session lib ng random info calc_block_diff pin_on_complete meta = do
  m ← or_panic info.manifest
  diff ← if calc_block_diff then missing lib ng m else ok m
  ok (record {
    id = random;
    pin = pin_on_complete;
    meta = meta;
    info = info;
    diff = diff;
    prog = new_completion m diff;
    fin = false;
  })

-- ReceiveBlock, where `stored` is what the block store's Put returned: the text of the identifier of
-- the block, or an error.
unfoldable pub receive : Str → Result Str → Session → Result (Response × Session)
unfolding mark
receive hash panic s = panic
receive hash (err e) s = ok (record { hash = hash; status = status_retry; error = some e }, s)
receive hash (ok id) s = elim (Str_discrete id hash) [
  | no _ ↦
      ok (record { hash = hash; status = status_errored; error = some (hash_mismatch hash id) }, s)
  | yes _ ↦ do
    m ← or_panic s.info.manifest
    ok (
      record { hash = hash; status = status_ok; error = none },
      record s { prog = mark hash m s.prog },
    )
]

-- Complete
abbrev pub complete : Session → Bool
complete s = is_complete s.prog

-- IsFinalizedOnce
unfoldable pub is_finalized_once : Session → Bool × Session
is_finalized_once s =
    if complete s
    then (if s.fin then (false, s) else (true, record s { fin = true }))
    else (false, s)
