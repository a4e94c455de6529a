-- ===== src/Service/Stream.antt =====
-- dsync/dsync.go and dsync/session.go: ReceiveBlocks, which takes the blocks of one archive.
use dag.Base.{
  ◌≡◌, ◌≢◌, refl, sym, ap, ◌∙◌, Str, Str_discrete, List, Option, none, some, Result, Error, ok,
  lookup, or_panic, ◌>>=◌, get_elem?, sid_not_found, lookup-insert, arith,
}
use dag.Ipld.{Ipld}
use dag.Manifest.{Manifest}
use dag.Completion.Laws.{mark_all}
use dag.Session.{Session}
use dag.Stream.{Archive, add_all_from_car_reader}
use dag.Service.{Settings, Service, with_session, finalize_receive}
use dag.Service.Finish.{Agrees, finished, finalize_receive-finished}
use dag.Service.Transfer.{Waiting, OnlyHere, removed, kept, with_session-others}

-- The session when its goroutine has marked every identifier that was sent to it. Nothing that
-- follows in ReceiveBlocks reads the progress, so it does not matter when that happens.
abbrev pub marked_all : List Str → Manifest → Session → Session
marked_all ids m sess = record sess { prog = mark_all ids m sess.prog }

-- ReceiveBlocks of a Dsync, behind the call of the session's.
abbrev pub after_stream :
    Settings → Session → Service → Option Error → Result (Service × Option Error)
after_stream c sess ds (some e) = ok (ds, some e)
after_stream c sess ds none = finalize_receive c sess ds

-- ReceiveBlocks of the session and what follows it.
abbrev pub take_stream :
    Settings → Str → Archive → Service → Session → Manifest → Result (Service × Option Error)
take_stream c sid car ds sess m =
    let (ids, e) = add_all_from_car_reader car in
    after_stream c (marked_all ids m sess) (with_session (marked_all ids m sess) sid ds) e

unfoldable pub receive_blocks : Settings → Str → Archive → Service → Result (Service × Option Error)
receive_blocks c sid car ds = elim (lookup Str_discrete sid ds.session_pool) [
  | none ↦ ok (ds, some (sid_not_found sid))
  | some sess ↦ or_panic sess.info.manifest >>= take_stream c sid car ds sess
]

module _ (lib : Ipld) (c : Settings) (sid : Str) (m : Manifest) (root : Str)
    (rooted : get_elem? m.nodes 0 ≡ some root) (sess : Session) (ds : Service)
    (w : Waiting lib c sid m root rooted sess ds) (agrees : Agrees c sid m root rooted sess)
    (car : Archive) where
  abbrev ids : List Str
  ids = (add_all_from_car_reader car).0

  abbrev sess' : Session
  sess' = marked_all ids m sess

  abbrev ds' : Service
  ds' = with_session sess' sid ds

  stream_step :
      receive_blocks c sid car ds ≡ after_stream c sess' ds' (add_all_from_car_reader car).1
  unfolding receive_blocks
  stream_step =
      rw (w.pooled, receive_blocks) (ap (λ x. or_panic x >>= take_stream c sid car ds sess) w.has)

  still_here : lookup Str_discrete sid ds'.session_pool ≢ none
  still_here gone =
      let here : lookup Str_discrete sid ds'.session_pool ≡ some sess' =
        ground (arith, lookup-insert Str_discrete sid sid sess' ds.session_pool) in
      cc (sym gone ∙ here)

  -- A session that is in the pool under its name, has a cancel function and was not finalised, for a
  -- manifest with a first node; the final check, PutDAGInfo of the info store and the hook for
  -- completed transfers return no error for it, and pinning works if it asks for it. An archive that is read to its end finalises the transfer as ReceiveBlock does at its last
  -- block, whichever blocks the archive holds: it is not asked whether the session is complete. On
  -- an archive that fails, ReceiveBlocks returns its error, and of the service only the entry of the
  -- session has changed, which stays in the pool.
  pub receive_blocks_lem :
      ((add_all_from_car_reader car).1 ≡ none
        → (after : Service) × (receive_blocks c sid car ds ≡ ok (after, none))
          × (lookup Str_discrete sid after.session_pool ≡ none)
          × OnlyHere lib c sid m root rooted (finished c sid m root rooted sess ds) after)
      × ((e : Error)
          → (add_all_from_car_reader car).1 ≡ some e
          → (after : Service) × (receive_blocks c sid car ds ≡ ok (after, some e))
            × (lookup Str_discrete sid after.session_pool ≢ none)
            × OnlyHere lib c sid m root rooted ds after)
  receive_blocks_lem = (
    λ well.
        let agrees' : Agrees c sid m root rooted sess' = record {
          checked = agrees.checked;
          stores = agrees.stores;
          pins = agrees.pins;
          notified = agrees.notified;
        } in
        let ended =
          finalize_receive-finished c sid m root rooted sess' ds' agrees' w.named w.has w.cancel in
        (
          finished c sid m root rooted sess' ds',
          stream_step ∙ ap (after_stream c sess' ds') well ∙ ended,
          removed lib c sid m root rooted ds'.session_pool,
          (
            refl,
            λ other differ.
                kept lib c sid m root rooted ds'.session_pool other differ
                ∙ with_session-others lib c sid m root rooted sess' ds other differ
                ∙ sym (kept lib c sid m root rooted ds.session_pool other differ),
          ),
        ),
    λ e ill. (
      ds',
      stream_step ∙ ap (after_stream c sess' ds') ill,
      still_here,
      (refl, λ other differ. with_session-others lib c sid m root rooted sess' ds other differ),
    ),
  )
