-- ===== src/P2p/Handlers.antt =====
-- dsync/p2p.go: what a peer does with a message. Streams and the encodings are libraries'.
use dag.Base.{
  ℕ, Str, Str_discrete, bytes, Bool, true, false, List, [], ◌∷◌, Option, none, some, Result, Error,
  ok, err, panic, Dict, ◌>>=◌, ◌||◌, if◌then◌else◌,
}
use dag.Base.Sorting.{Sorting}
use dag.Ipld.{Ipld, NodeGetter}
use dag.Manifest.{Manifest}
use dag.Manifest.Build.{Outcome, done, fail, crash, out_of_fuel}
use dag.Info.{Info}
use dag.Session.{Session, Status, Response, status_ok, status_errored, status_retry}
use dag.Service.{Settings, Service, new_receive_session, receive_block}
use dag.Service.Queries.{get_dag_info, remove_cid}
use dag.P2p.{Message, update, with_headers, header}

-- The CBOR encodings of the package codec.
pub record Codec : Type 0 where
  pub marshal_manifest : Manifest → Result Str
  pub unmarshal_manifest : Str → Result Manifest
  pub marshal_info : Info → Result Str
  pub unmarshal_info : Str → Result Info

-- The peer that handles a message: its Dsync, and what the libraries return to it. `put` is what
-- Put of the local blocks returns for the bytes, `get` what Get and reading to the end return,
-- `text` the method Error of an error, `random` the name that newSession draws.
pub record Peer : Type 1 where
  pub lib : Ipld
  pub ng : NodeGetter lib
  pub srt : Sorting
  pub fuel : ℕ
  pub settings : Settings
  pub codec : Codec
  pub put : Str → Result Str
  pub get : Str → Result Str
  pub text : Error → Str
  pub random : Str

-- What a handler did: the message that it sent, if any, and whether it hangs up.
pub record Handled : Type 0 where
  pub reply : Option Message
  pub hangup : Bool

-- `ws.SendMessage(res)`, which may fail, and the end of a handler.
abbrev pub respond : Option Error → Message → Handled
respond none res = record { reply = some res; hangup = false }
respond (some e) res = record { reply = none; hangup = true }

abbrev pub hang_up : Handled
hang_up = record { reply = none; hangup = true }

abbrev pub pass : Handled
pass = record { reply = none; hangup = false }

-- `s == t`
abbrev pub is : Str → Str → Bool
is s t = elim (Str_discrete s t) [ yes _ ↦ true | no _ ↦ false ]

abbrev pub is_request : Message → Bool
is_request msg = is (header (bytes "phase") msg) (bytes "request")

-- The headers but those with the keys `a` and `b`.
unfoldable pub meta_of : Str → Str → Dict Str Str → Dict Str Str
meta_of a b [] = []
meta_of a b ((key, value) ∷ headers) =
    let rest = meta_of a b headers in if is key a || is key b then rest else (key, value) ∷ rest

-- The switch of HandleReceiveBlock.
abbrev pub status_text : Status → Str
status_text status_errored = bytes "errored"
status_text status_ok = bytes "ok"
status_text status_retry = bytes "retry"

module _ (p : Peer) (send : Option Error) (msg : Message) where
  abbrev pub error_text : Option Error → Str
  error_text none = []
  error_text (some e) = p.text e

  abbrev pub session_reply : Session → Str → Handled
  session_reply sess enc = respond send (
      update enc (with_headers (bytes "phase" ∷ bytes "response" ∷ bytes "sid" ∷ sess.id ∷ []) msg))

  -- With the encoding of the difference.
  abbrev pub after_encoding : Service → Session → Result Str → Result (Handled × Service)
  after_encoding ds sess (ok enc) = ok (session_reply sess enc, ds)
  after_encoding ds sess (err e) = ok (hang_up, ds)
  after_encoding ds sess panic = panic

  -- With what the service answers.
  abbrev pub after_session : Service → Result (Service × Session) → Result (Handled × Service)
  after_session ds (ok (ds', sess)) = after_encoding ds' sess (p.codec.marshal_manifest sess.diff)
  after_session ds (err e) = ok (hang_up, ds)
  after_session ds panic = panic

  abbrev pub after_decoding : Service → Result Info → Result (Handled × Service)
  after_decoding ds (ok info) = after_session ds (
      new_receive_session p.lib p.ng p.settings p.random info
        (is (header (bytes "pin") msg) (bytes "true"))
        (meta_of (bytes "pin") (bytes "phase") msg.headers) ds)
  after_decoding ds (err e) = ok (hang_up, ds)
  after_decoding ds panic = panic

  unfoldable pub handle_new_receive : Service → Result (Handled × Service)
  handle_new_receive ds =
      if is_request msg then after_decoding ds (p.codec.unmarshal_info msg.body) else ok (pass, ds)

  -- `msg.Headers[key]`
  abbrev pub block_reply : Str → Response → Message
  block_reply cid rr =
      with_headers
        (bytes "phase"
          ∷ bytes "response"
          ∷ bytes "cid"
          ∷ cid
          ∷ bytes "status"
          ∷ status_text rr.status
          ∷ bytes "error"
          ∷ error_text rr.error
          ∷ [])
        msg

  unfoldable pub handle_receive_block : Service → Result (Handled × Service)
  handle_receive_block ds =
      if is_request msg
      then (receive_block p.lib p.settings (header (bytes "sid") msg) (header (bytes "cid") msg)
            (p.put msg.body) ds
          >>= λ (rr, ds'). ok (respond send (block_reply (header (bytes "cid") msg) rr), ds'))
      else ok (pass, ds)

  abbrev pub response : Message
  response = with_headers (bytes "phase" ∷ bytes "response" ∷ []) msg

  abbrev pub error_reply : Error → Message
  error_reply e = with_headers (bytes "error" ∷ p.text e ∷ []) msg

  abbrev pub info_reply : Result Str → Outcome Handled
  info_reply (ok encoded) = done (respond send (update encoded response))
  info_reply (err e) = done pass
  info_reply panic = crash

  abbrev pub after_info : Outcome Info → Outcome Handled
  after_info (done info) = info_reply (p.codec.marshal_info info)
  after_info (fail e) = done (respond send (error_reply e))
  after_info crash = crash
  after_info out_of_fuel = out_of_fuel

  unfoldable pub handle_req_manifest : Service → Outcome Handled
  handle_req_manifest ds = after_info (
      get_dag_info p.lib p.ng p.srt p.fuel p.settings (header (bytes "cid") msg)
        (meta_of (bytes "cid") (bytes "phase") msg.headers) ds)

  abbrev pub after_get : Result Str → Result Handled
  after_get (ok content) = ok (respond send (update content response))
  after_get (err e) = ok (respond send (error_reply e))
  after_get panic = panic

  -- With GetBlock of the Dsync, which is `p.get`.
  unfoldable pub handle_get_block : Result Handled
  handle_get_block = after_get (p.get (header (bytes "cid") msg))

  abbrev pub removed_reply : Str → Option Error → Message
  removed_reply cid none =
      with_headers (bytes "phase" ∷ bytes "response" ∷ bytes "cid" ∷ cid ∷ []) msg
  removed_reply cid (some e) = error_reply e

  -- With the calls of `Rm` that it makes.
  unfoldable pub handle_remove_cid : List Str × Handled
  handle_remove_cid =
      if is_request msg
      then (let cid = header (bytes "cid") msg in
          let (unpinned, e) =
            remove_cid p.settings cid (meta_of (bytes "pin") (bytes "phase") msg.headers) in
          (unpinned, respond send (removed_reply cid e)))
      else ([], pass)
