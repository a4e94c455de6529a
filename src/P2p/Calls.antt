-- ===== src/P2p/Calls.antt =====
-- dsync/p2p.go: GetBlock and RemoveCID of a p2pClient together with what the remote peer does.
use dag.Base.{
  ℕ, ◌≡◌, refl, ap, ◌∙◌, Str, Str_discrete, bytes, List, [], ◌∷◌, Option, none, some, Result, Error,
  ok, err, Dict, lookup, insert, ◌>>=◌,
}
use dag.Service.Queries.{remove_cid}
use dag.P2p.{Message, headers_of}
use dag.P2p.Handlers.{
  Peer, Handled, handle_get_block, handle_remove_cid, meta_of, respond, removed_reply,
}
use dag.P2p.Client.{
  Call, returned, error_of, nil_or, client_get_block, get_request, client_remove_cid,
  remove_request,
}
use dag.P2p.Headers.{Distinct, headers_of-two, meta_of-same}
use dag.P2p.Exchange.{delivered}

module _ (p : Peer) (drawn : Str) (now : ℕ) (host : Str) (plain formatted : Str → Error)
    (remote wrap : Error → Error) where
  abbrev arriving : Handled → Message → Call (Result Message)
  arriving = delivered p drawn now host plain formatted remote wrap

  -- GetBlock of a p2pClient.
  unfoldable pub exchange_get : Str → Result (Call (Result Str))
  unfolding handle_get_block client_get_block
  exchange_get cid = do
    h ← handle_get_block p none (get_request drawn now host cid)
    ok (client_get_block drawn now host p.codec plain formatted remote (arriving h) cid)

  -- GetBlock of a p2pClient returns the bytes that GetBlock of the remote's service does. If that
  -- returns an error, GetBlock of the p2pClient returns no bytes and no error.
  pub exchange_get_lem :
      (cid : Str)
      → ((content : Str) → p.get cid ≡ ok content → exchange_get cid ≡ ok (returned (ok content)))
        × ((e : Error) → p.get cid ≡ err e → exchange_get cid ≡ ok (returned (ok [])))
  unfolding exchange_get handle_get_block client_get_block headers_of lookup insert Str_discrete
  exchange_get_lem cid =
      (λ content found. rw (found, exchange_get) refl, λ e lost. rw (lost, exchange_get) refl)

  -- RemoveCID of a p2pClient: the calls of `Rm` on the remote, and what the client returns.
  unfoldable pub exchange_removal : Str → Dict Str Str → List Str × Call (Result (Unit {0}))
  unfolding handle_remove_cid client_remove_cid
  exchange_removal cid meta =
      let (unpinned, h) = handle_remove_cid p none (remove_request drawn now host cid meta) in
      (
        unpinned,
        client_remove_cid drawn now host p.codec plain formatted remote (arriving h) cid meta,
      )

  abbrev outcome : Option Error → Result (Unit {0})
  outcome none = ok tt
  outcome (some e) = nil_or (error_of formatted (p.text e))

  abbrev result_of : List Str × Option Error → List Str × Call (Result (Unit {0}))
  result_of (unpinned, e) = (unpinned, returned (outcome e))

  abbrev answering : Message → Str → List Str × Option Error → List Str × Handled
  answering msg cid (unpinned, e) = (unpinned, respond none (removed_reply p none msg cid e))

  removing :
      (msg : Message) (cid : Str) (meta : Dict Str Str)
      → msg.headers ≡ (bytes "phase", bytes "request") ∷ (bytes "cid", cid) ∷ meta
      → lookup Str_discrete (bytes "phase") meta ≡ none
      → lookup Str_discrete (bytes "pin") meta ≡ none
      → handle_remove_cid p none msg
        ≡ answering msg cid (remove_cid p.settings cid ((bytes "cid", cid) ∷ meta))
  unfolding handle_remove_cid lookup meta_of Str_discrete
  removing msg cid meta same no_phase no_pin =
      let kept = meta_of-same (bytes "pin") (bytes "phase") meta no_pin no_phase in
      rw same (rw kept refl)

  abbrev finish_removal :
      Str → Dict Str Str → List Str × Handled → List Str × Call (Result (Unit {0}))
  finish_removal cid meta (unpinned, h) = (
    unpinned,
    client_remove_cid drawn now host p.codec plain formatted remote (arriving h) cid meta,
  )

  finish_removal-answering :
      (msg : Message) (cid : Str) (meta : Dict Str Str) (r : List Str × Option Error)
      → finish_removal cid meta (answering msg cid r) ≡ result_of r
  unfolding client_remove_cid headers_of lookup insert Str_discrete
  finish_removal-answering msg cid meta (unpinned, none) = refl
  finish_removal-answering msg cid meta (unpinned, some e) = refl

  -- RemoveCID of a p2pClient, for a `meta` with one value for each key and without the keys "phase",
  -- "cid" and "pin", calls RemoveCID of the remote's service with the identifier and with `meta`, to
  -- which the identifier was added under the key "cid". It returns no error if that returns none or
  -- one with an empty text, and else an error with its text as the format.
  pub exchange_removal_lem :
      (cid : Str) (meta : Dict Str Str)
      → Distinct meta
      → lookup Str_discrete (bytes "phase") meta ≡ none
      → lookup Str_discrete (bytes "cid") meta ≡ none
      → lookup Str_discrete (bytes "pin") meta ≡ none
      → exchange_removal cid meta
        ≡ result_of (remove_cid p.settings cid ((bytes "cid", cid) ∷ meta))
  unfolding exchange_removal Str_discrete
  exchange_removal_lem cid meta d no_phase no_cid no_pin =
      let msg = remove_request drawn now host cid meta in
      let sent =
        headers_of-two (bytes "phase") (bytes "request") (bytes "cid") cid meta (λ e. cc) d no_phase
          no_cid in
      ap (finish_removal cid meta) (removing msg cid meta sent no_phase no_pin)
      ∙ finish_removal-answering msg cid meta
          (remove_cid p.settings cid ((bytes "cid", cid) ∷ meta))
