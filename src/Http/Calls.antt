-- ===== src/Http/Calls.antt =====
-- dsync/http.go: ReceiveBlocks and RemoveCID of HTTPClient, with what HTTPRemoteHandler does for them.
use dag.Base.{
  ◌≡◌, ◌≢◌, refl, ℕ, ap, Str, Str_discrete, List, Option, none, some, Result, Error, ok, Dict,
  ◌>>=◌, ◌==◌, if◌then◌else◌, remove_not_supported, [], arith,
}
use dag.Stream.{Archive}
use dag.Service.{Settings, Service}
use dag.Service.Stream.{receive_blocks}
use dag.Service.Queries.{remove_cid}
use dag.Http.{Reply, status_code_ok, status_code_bad_request, status_code_internal_server_error}

-- `text` is the method Error of an error, and `remote` is fmt.Errorf for the call's format.
module _ (text : Error → Str) (remote : ℕ → Str → Error) where
  -- A reply to a call that returns nothing but an error, with the code for an error.
  abbrev pub reply_with : ℕ → Option Error → Reply
  reply_with code none = record { code = status_code_ok; message = [] }
  reply_with code (some e) = record { code = code; message = text e }

  -- The end of HTTPClient.ReceiveBlocks.
  abbrev pub blocks_error : Reply → Option Error
  blocks_error reply =
      if reply.code == status_code_ok then none else some (remote reply.code reply.message)

  -- An archive that is sent and taken. The query is `sid`.
  unfoldable pub exchange_blocks :
      Settings → Str → Archive → Service → Result (Service × Option Error)
  exchange_blocks c sid car ds = do
    (ds', e) ← receive_blocks c sid car ds
    ok (ds', blocks_error (reply_with status_code_bad_request e))

  -- The end of HTTPClient.RemoveCID.
  abbrev pub remove_error : Reply → Option Error
  remove_error reply =
      if reply.code == status_code_ok
      then none
      else (elim (Str_discrete reply.message (text remove_not_supported)) [
        | yes _ ↦ some remove_not_supported
        | no _ ↦ some (remote reply.code reply.message)
      ])

  -- A request for a removal, for a `meta` without the key "cid", which the query uses for the
  -- identifier: the calls of `Rm` on the remote, and the error that the client returns.
  unfoldable pub exchange_remove : Settings → Str → Dict Str Str → List Str × Option Error
  exchange_remove c cid meta =
      let (unpinned, e) = remove_cid c cid meta in
      (unpinned, remove_error (reply_with status_code_internal_server_error e))

  -- ReceiveBlocks over HTTP leaves the service as the remote's ReceiveBlocks does, and returns an
  -- error exactly if that does, with its text under the code 400.
  pub exchange_blocks_lem :
      (c : Settings) (sid : Str) (car : Archive) (ds after : Service) (e : Option Error)
      → receive_blocks c sid car ds ≡ ok (after, e)
      → ((e ≡ none) → exchange_blocks c sid car ds ≡ ok (after, none))
        × ((why : Error)
            → e ≡ some why
            → exchange_blocks c sid car ds ≡ ok (after, some (remote 400 (text why))))
  unfolding exchange_blocks
  exchange_blocks_lem c sid car ds after e ran = (
    λ good. rw (ran, exchange_blocks) (rw good refl),
    λ why bad. rw (ran, exchange_blocks) (rw bad refl),
  )

  -- RemoveCID over HTTP asks the remote's PinAPI for the same as the remote's RemoveCID, succeeds if
  -- that does, and gives ErrRemoveNotSupported back as itself. Any other error, with another text,
  -- comes back as its text under the code 500.
  pub exchange_remove_lem :
      (c : Settings) (cid : Str) (meta : Dict Str Str)
      → ((exchange_remove c cid meta).0 ≡ (remove_cid c cid meta).0)
        × ((remove_cid c cid meta).1 ≡ none → (exchange_remove c cid meta).1 ≡ none)
        × ((remove_cid c cid meta).1 ≡ some remove_not_supported
            → (exchange_remove c cid meta).1 ≡ some remove_not_supported)
        × ((e : Error)
            → (remove_cid c cid meta).1 ≡ some e
            → text e ≢ text remove_not_supported
            → (exchange_remove c cid meta).1 ≡ some (remote 500 (text e)))
  unfolding exchange_remove
  exchange_remove_lem c cid meta = (
    refl,
    λ good. ap (λ e. remove_error (reply_with status_code_internal_server_error e)) good,
    λ bad.
        rw (bad, exchange_remove)
          (elim (Str_discrete (text remove_not_supported) (text remove_not_supported)) [
            | yes _ ↦ ground arith
            | no other ↦ absurd (other refl)
          ]),
    λ e bad differ. rw (bad, exchange_remove) (ground (arith, differ)),
  )
