-- ===== src/P2p/Client.antt =====
-- dsync/p2p.go: p2pClient. Its calls send one message to the remote peer and wait for one.
use dag.Base.{
  ℕ, Str, bytes, Bool, [], ◌∷◌, Option, none, some, Result, Error, ok, err, panic, Dict,
  unknown_protocol_version, ◌>>=◌, if◌then◌else◌,
}
use dag.Manifest.{Manifest}
use dag.Info.{Info}
use dag.Session.{Response, Status, status_ok, status_errored, status_retry}
use dag.P2p.{
  Message, new_message, with_headers, header, flat, text_of_bool, mt_new_receive, mt_receive_block,
  mt_get_dag_info, mt_get_block, mt_remove_cid,
}
use dag.P2p.Handlers.{Codec, is}

-- A call waits for good, or returns.
pub data Call (A : Type 0) : Type 0 where
  blocked : Call A
  returned : A → Call A

-- `c.remoteProtocolID` is `agreed`.
abbrev pub client_protocol_version : Str → Result Str
client_protocol_version [] = err unknown_protocol_version
client_protocol_version (x ∷ xs) = ok (x ∷ xs)

-- sendMessage, with the errors of NewStream, in its wrapping, and of SendMessage, and what is taken
-- from `replies`, if anything is put there.
abbrev pub send_message :
    (Error → Error) → Option Error → Option Error → Option Message → Call (Result Message)
send_message wrap (some e) sending reply = returned (err (wrap e))
send_message wrap none (some e) reply = returned (err e)
send_message wrap none none none = blocked
send_message wrap none none (some reply) = returned (ok reply)

-- `after` for what the message brought, an error at once.
abbrev with_reply : {A : Type 0} → (Message → Result A) → Call (Result Message) → Call (Result A)
with_reply after blocked = blocked
with_reply after (returned (ok res)) = returned (after res)
with_reply after (returned (err e)) = returned (err e)
with_reply after (returned panic) = returned panic

-- The error of a reply, where an empty text says that there is none.
abbrev pub error_of : (Str → Error) → Str → Option Error
error_of form [] = none
error_of form (x ∷ xs) = some (form (x ∷ xs))

-- The switch of ReceiveBlock.
abbrev pub status_of : Str → Status
status_of s =
    if is s (bytes "ok")
    then status_ok
    else (if is s (bytes "retry") then status_retry else status_errored)

-- `ok tt` is a nil error.
abbrev pub nil_or : Option Error → Result (Unit {0})
nil_or none = ok tt
nil_or (some e) = err e

-- The messages. `drawn` and `now` are for NewMessage, `host` is the client's own peer.
module _ (drawn : Str) (now : ℕ) (host : Str) where
  abbrev pub session_request : Bool → Dict Str Str → Str → Message
  session_request pin_on_complete meta encoded =
      with_headers
        (bytes "phase" ∷ bytes "request" ∷ bytes "pin" ∷ text_of_bool pin_on_complete ∷ flat meta)
        (new_message drawn now host mt_new_receive encoded)

  abbrev pub block_request : Str → Str → Str → Message
  block_request sid cid content =
      with_headers (bytes "sid" ∷ sid ∷ bytes "cid" ∷ cid ∷ bytes "phase" ∷ bytes "request" ∷ [])
        (new_message drawn now host mt_receive_block content)

  abbrev pub info_request : Str → Dict Str Str → Message
  info_request cid meta =
      with_headers (bytes "phase" ∷ bytes "request" ∷ bytes "cid" ∷ cid ∷ flat meta)
        (new_message drawn now host mt_get_dag_info [])

  abbrev pub get_request : Str → Message
  get_request cid =
      with_headers (bytes "cid" ∷ cid ∷ []) (new_message drawn now host mt_get_block [])

  abbrev pub remove_request : Str → Dict Str Str → Message
  remove_request cid meta =
      with_headers (bytes "phase" ∷ bytes "request" ∷ bytes "cid" ∷ cid ∷ flat meta)
        (new_message drawn now host mt_remove_cid [])

  -- `deliver` is sendMessage, for the remote peer. `plain` is fmt.Errorf("%s", …), `formatted` is
  -- fmt.Errorf of a text as the format, and `remote` is fmt.Errorf for "remote error: %s".
  module _ (codec : Codec) (plain formatted : Str → Error) (remote : Error → Error)
      (deliver : Message → Call (Result Message)) where
    -- A manifest that cannot be decoded is an error.
    abbrev session_result : Message → Result (Str × Manifest)
    session_result res = do
      diff ← codec.unmarshal_manifest res.body
      ok (header (bytes "sid") res, diff)

    abbrev after_marshal : Bool → Dict Str Str → Result Str → Call (Result (Str × Manifest))
    after_marshal pin_on_complete meta (ok encoded) =
        with_reply session_result (deliver (session_request pin_on_complete meta encoded))
    after_marshal pin_on_complete meta (err e) = returned (err e)
    after_marshal pin_on_complete meta panic = returned panic

    unfoldable pub client_new_receive_session :
        Info → Bool → Dict Str Str → Call (Result (Str × Manifest))
    client_new_receive_session info pin_on_complete meta =
        after_marshal pin_on_complete meta (codec.marshal_info info)

    abbrev block_result : Str → Call (Result Message) → Call (Result Response)
    block_result cid blocked = blocked
    block_result cid (returned (ok res)) = returned (
        ok (record {
          hash = header (bytes "cid") res;
          status = status_of (header (bytes "status") res);
          error = error_of plain (header (bytes "error") res);
        }))
    block_result cid (returned (err e)) =
        returned (ok (record { hash = cid; status = status_errored; error = some (remote e) }))
    block_result cid (returned panic) = returned panic

    unfoldable pub client_receive_block : Str → Str → Str → Call (Result Response)
    client_receive_block sid cid content =
        block_result cid (deliver (block_request sid cid content))

    unfoldable pub client_get_dag_info : Str → Dict Str Str → Call (Result Info)
    client_get_dag_info cid meta =
        with_reply (λ res. codec.unmarshal_info res.body) (deliver (info_request cid meta))

    unfoldable pub client_get_block : Str → Call (Result Str)
    client_get_block cid = with_reply (λ res. ok res.body) (deliver (get_request cid))

    unfoldable pub client_remove_cid : Str → Dict Str Str → Call (Result (Unit {0}))
    client_remove_cid cid meta =
        with_reply (λ res. nil_or (error_of formatted (header (bytes "error") res)))
          (deliver (remove_request cid meta))
