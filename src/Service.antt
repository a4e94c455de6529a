-- ===== src/Service.antt =====
-- dsync/dsync.go: the receiving side of a Dsync, with its pool of sessions. A call is one step here;
-- calls that overlap are in Service/Overlap.
pub mod Queries
pub mod Finish
pub mod Transfer
pub mod Begin
pub mod Stream
pub mod Config
pub mod Answers
pub mod Replies
pub mod Remotes
pub mod Serving
pub mod Overlap
use dag.Base.{
  ℕ, ◌≡◌, Str, Str_discrete, Bool, true, false, List, [], ◌∷◌, Option, none, some, Result, Error,
  ok, err, panic, Dict, lookup, insert, delete, or_panic, ◌>>=◌, if◌then◌else◌, not, ◌&&◌,
  get_elem?, pin_not_supported, remove_not_supported, sid_not_found,
}
use dag.Ipld.{Ipld, NodeGetter}
use dag.Manifest.{Manifest}
use dag.Info.{Info, info_root_cid, new_info}
use dag.Store.{Infos, put_info, dag_info}
use dag.Session.{
  Session, Response, status_ok, status_errored, status_retry, Status, new_session, receive,
  is_finalized_once,
}

-- A hook of the configuration: `none` lets the call go on.
abbrev pub Hook : Type 0
Hook = Info → Dict Str Str → Option Error

-- coreiface.PinAPI
pub record PinApi : Type 0 where
  pub add : Str → Option Error
  pub rm : Str → Option Error

-- The fields of Dsync that no call changes. `put_error` is what PutDAGInfo of the info store answers
-- for a root and an info; with an error the store stays as it is. That of a MemInfoStore is always none.
pub record Settings : Type 0 where
  pub require_all_blocks : Bool
  pub allow_removes : Bool
  pub pre_check : Hook
  pub final_check : Hook
  pub on_complete_hook : Option Hook
  pub get_dag_info_check : Option Hook
  pub open_block_stream_check : Option Hook
  pub remove_check : Option Hook
  pub pin : Option PinApi
  pub put_error : Str → Info → Option Error

-- The fields that calls change, and what they asked of the outside: the roots that were pinned, and
-- the infos for which the hook for completed transfers was called. `session_cancels` has the names
-- of the sessions that have a cancel function, and `cancelled` of those whose was called.
pub record Service : Type 0 where
  pub session_pool : Dict Str Session
  pub session_cancels : Dict Str (Unit {0})
  pub cancelled : List Str
  pub info_store : Option Infos
  pub pinned : List Str
  pub completed : List Info

-- `sess.info.Manifest.Nodes[0]`
abbrev pub root_of : Info → Result Str
root_of i = do m ← or_panic i.manifest; or_panic (get_elem? m.nodes 0)

-- PutDAGInfo of the info store that holds `infos`.
unfoldable pub put : Settings → Str → Info → Infos → Service → Service × Option Error
put c root info infos ds = elim (c.put_error root info) [
  | none ↦ (record ds { info_store = some (put_info root info infos) }, none)
  | some e ↦ (ds, some e)
]

-- `if ds.infoStore != nil { … }` of finalizeReceive, with the error that ends it.
unfoldable pub store_info : Settings → Session → Service → Result (Service × Option Error)
unfolding put
store_info c sess ds = elim ds.info_store [
  | none ↦ ok (ds, none)
  | some infos ↦ do root ← root_of sess.info; ok (put c root sess.info infos ds)
]

-- `if sess.pin { … }` of finalizeReceive, with the error that ends it.
unfoldable pub add_pin : Settings → Session → Service → Result (Service × Option Error)
add_pin c sess ds = do
  api ← or_panic c.pin
  root ← root_of sess.info
  elim (api.add root) [
    | none ↦ ok (record ds { pinned = root ∷ ds.pinned }, none)
    | some e ↦ ok (ds, some e)
  ]

unfoldable pub pin_root : Settings → Session → Service → Result (Service × Option Error)
unfolding add_pin
pin_root c sess ds = if sess.pin then add_pin c sess ds else ok (ds, none)

-- The deferred function of finalizeReceive: it calls the cancel function, and a nil one panics.
unfoldable pub release : Str → Service → Result Service
release id ds = do
  _cancel ← or_panic (lookup Str_discrete id ds.session_cancels)
  ok (record ds {
    cancelled = id ∷ ds.cancelled;
    session_pool = delete Str_discrete id ds.session_pool;
  })

-- `if ds.onCompleteHook != nil { … }`
abbrev pub notify : Settings → Session → Service → Service × Option Error
notify c sess ds = elim c.on_complete_hook [
  | none ↦ (ds, none)
  | some hook ↦ (record ds { completed = sess.info ∷ ds.completed }, hook sess.info sess.meta)
]

-- The part of finalizeReceive behind the pinning.
unfoldable pub conclude : Settings → Session → Service → Result (Service × Option Error)
unfolding release
conclude c sess ds = do ds' ← release sess.id (notify c sess ds).0; ok (ds', (notify c sess ds).1)

-- The part of finalizeReceive behind the storing.
unfoldable pub pin_and_conclude : Settings → Session → Service → Result (Service × Option Error)
unfolding pin_root conclude
pin_and_conclude c sess ds = do
  (pinned, e) ← pin_root c sess ds
  elim e [ some e ↦ ok (pinned, some e) | none ↦ conclude c sess pinned ]

unfoldable pub finalize_receive : Settings → Session → Service → Result (Service × Option Error)
unfolding store_info pin_and_conclude
finalize_receive c sess ds = elim (c.final_check sess.info sess.meta) [
  | some e ↦ ok (ds, some e)
  | none ↦ do
    (stored, e) ← store_info c sess ds
    elim e [ some e ↦ ok (stored, some e) | none ↦ pin_and_conclude c sess stored ]
]

-- The entries of the new session in both maps.
abbrev pub enter_session : Session → Service → Service
enter_session sess ds = record ds {
  session_pool = insert Str_discrete sess.id sess ds.session_pool;
  session_cancels = insert Str_discrete sess.id tt ds.session_cancels;
}

-- `pinOnComplete && ds.pin == nil`
abbrev pub lacks_pin : Option PinApi → Bool → Bool
lacks_pin none pin_on_complete = pin_on_complete
lacks_pin (some api) pin_on_complete = false

-- NewReceiveSession, where `random` is the name that newSession draws. An error leaves the service
-- as it is.
unfoldable pub new_receive_session :
    (lib : Ipld)
    → NodeGetter lib
    → Settings
    → Str
    → Info
    → Bool
    → Dict Str Str
    → Service
    → Result (Service × Session)
unfolding new_session
new_receive_session lib ng c random info pin_on_complete meta ds = elim (c.pre_check info meta) [
  | some e ↦ err e
  | none ↦
      if lacks_pin c.pin pin_on_complete
      then err pin_not_supported
      else (new_session lib ng random info (not c.require_all_blocks) pin_on_complete meta
          >>= λ sess. ok (enter_session sess ds, sess))
]

abbrev pub with_session : Session → Str → Service → Service
with_session sess sid ds = record ds { session_pool = insert Str_discrete sid sess ds.session_pool }

-- `res.Status == StatusOk`
abbrev pub is_ok : Status → Bool
is_ok status_ok = true
is_ok status_errored = false
is_ok status_retry = false

-- What ReceiveBlock returns after finalizeReceive.
abbrev pub answer : (lib : Ipld) → Session → Response → Option Error → Response
answer lib sess res none = res
answer lib sess res (some e) = record {
  hash = lib.cid_string (info_root_cid lib sess.info);
  status = status_errored;
  error = some e;
}

-- The part of ReceiveBlock behind the storing of the block. The session is changed in place, in the
-- pool.
unfoldable pub after_receive :
    (lib : Ipld) → Settings → Str → Response → Session → Service → Result (Response × Service)
unfolding finalize_receive
after_receive lib c sid res sess ds =
    let (once, sess') = is_finalized_once sess in
    if is_ok res.status
    then (if once
        then (finalize_receive c sess' (with_session sess' sid ds) >>= λ (ds', e).
            ok (answer lib sess' res e, ds'))
        else ok (res, with_session sess' sid ds))
    else ok (res, with_session sess sid ds)

-- ReceiveBlock, where `stored` is what the block store answers.
unfoldable pub receive_block :
    (lib : Ipld) → Settings → Str → Str → Result Str → Service → Result (Response × Service)
unfolding receive after_receive
receive_block lib c sid hash stored ds = elim (lookup Str_discrete sid ds.session_pool) [
  | none ↦
      ok (record { hash = hash; status = status_errored; error = some (sid_not_found sid) }, ds)
  | some sess ↦ do (res, sess') ← receive hash stored sess; after_receive lib c sid res sess' ds
]
