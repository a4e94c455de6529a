-- ===== src/P2p/Exchange.antt =====
-- dsync/p2p.go: calls of a p2pClient together with what the remote peer does with their messages,
-- over streams that open and deliver.
use dag.Base.{
  ℕ, ◌≡◌, refl, Str, Str_discrete, bytes, Bool, true, false, ◌∷◌, Option, none, some, Result, Error,
  ok, err, Dict, lookup, insert, ◌>>=◌,
}
use dag.Manifest.{Manifest}
use dag.Info.{Info}
use dag.Session.{Session, Status, Response, status_ok, status_errored, status_retry}
use dag.Service.{Service, new_receive_session, receive_block}
use dag.P2p.{Message, headers_of, text_of_bool}
use dag.P2p.Handlers.{
  error_text, Peer, Handled, handle_new_receive, handle_receive_block, meta_of, after_session, is,
  status_text,
}
use dag.P2p.Client.{
  Call, blocked, returned, send_message, client_new_receive_session, session_request, error_of,
  status_of, client_receive_block, block_request,
}
use dag.P2p.Headers.{Distinct, headers_of-two, meta_of-same}

status_of-text : (s : Status) → status_of (status_text s) ≡ s
unfolding Str_discrete
status_of-text status_errored = refl
status_of-text status_ok = refl
status_of-text status_retry = refl

module _ (p : Peer) (drawn : Str) (now : ℕ) (host : Str) (plain formatted : Str → Error)
    (remote wrap : Error → Error) where
  -- What the remote peer answers to a message reaches the client.
  abbrev pub delivered : Handled → Message → Call (Result Message)
  delivered h msg = send_message wrap none none h.reply

  -- NewReceiveSession of a p2pClient whose info is encoded as `encoded`, and the service of the
  -- remote peer after it.
  unfoldable pub exchange_session :
      Info → Bool → Dict Str Str → Str → Service → Result (Call (Result (Str × Manifest)) × Service)
  unfolding handle_new_receive client_new_receive_session
  exchange_session info pin meta encoded ds = do
    (h, ds') ← handle_new_receive p none (session_request drawn now host pin meta encoded) ds
    ok (
      client_new_receive_session drawn now host p.codec plain formatted remote (delivered h) info
          pin meta,
      ds',
    )

  -- ReceiveBlock of a p2pClient, and the service of the remote peer after it.
  unfoldable pub exchange_block :
      Str → Str → Str → Service → Result (Call (Result Response) × Service)
  unfolding handle_receive_block client_receive_block
  exchange_block sid cid content ds = do
    (h, ds') ← handle_receive_block p none (block_request drawn now host sid cid content) ds
    ok (
      client_receive_block drawn now host p.codec plain formatted remote (delivered h) sid cid
          content,
      ds',
    )

  abbrev pub learned : Option Error → Option Error
  learned none = none
  learned (some e) = error_of plain (p.text e)

  learned_text :
      (msg : Message) (e : Option Error) → error_of plain (error_text p none msg e) ≡ learned e
  learned_text msg none = refl
  learned_text msg (some e) = refl

  -- ReceiveBlock of a p2pClient calls ReceiveBlock of the remote peer's service with the session, the
  -- identifier and the bytes that it was given. What it returns has the same status, the identifier
  -- that was sent, and an error with the text of the remote's, or none where that text is empty.
  pub exchange_block_lem :
      (sid cid content : Str) (ds after : Service) (res : Response)
      → receive_block p.lib p.settings sid cid (p.put content) ds ≡ ok (res, after)
      → exchange_block sid cid content ds
        ≡ ok (
          returned (ok (record { hash = cid; status = res.status; error = learned res.error })),
          after,
        )
  unfolding exchange_block handle_receive_block client_receive_block headers_of lookup insert
      Str_discrete
  exchange_block_lem sid cid content ds after res ran =
      rw (ran, exchange_block)
        (rw (status_of-text res.status)
          (rw (learned_text (block_request drawn now host sid cid content) res.error) refl))

  text_of_bool_is : (b : Bool) → is (text_of_bool b) (bytes "true") ≡ b
  unfolding Str_discrete
  text_of_bool_is true = refl
  text_of_bool_is false = refl

  module _ (info received : Info) (pin : Bool) (meta : Dict Str Str) (encoded : Str)
      (d : Distinct meta) (no_phase : lookup Str_discrete (bytes "phase") meta ≡ none)
      (no_pin : lookup Str_discrete (bytes "pin") meta ≡ none)
      (encodes : p.codec.marshal_info info ≡ ok encoded)
      (decodes : p.codec.unmarshal_info encoded ≡ ok received) where
    abbrev msg : Message
    msg = session_request drawn now host pin meta encoded

    abbrev listed : Dict Str Str
    listed = (bytes "phase", bytes "request") ∷ (bytes "pin", text_of_bool pin) ∷ meta

    msg-headers : msg.headers ≡ listed
    msg-headers =
        headers_of-two (bytes "phase") (bytes "request") (bytes "pin") (text_of_bool pin) meta
          (λ e. cc) d no_phase no_pin

    -- The answer of the remote to a message with these headers.
    answer_to :
        (m : Message) (ds : Service)
        → m.headers ≡ listed
        → m.body ≡ encoded
        → handle_new_receive p none m ds
          ≡ after_session p none m ds
              (new_receive_session p.lib p.ng p.settings p.random received pin meta ds)
    unfolding handle_new_receive lookup meta_of Str_discrete
    answer_to m ds same carried =
        let kept = meta_of-same (bytes "pin") (bytes "phase") meta no_pin no_phase in
        rw same (rw carried (rw decodes (rw (text_of_bool_is pin) (rw kept refl))))

    -- For an info that can be encoded, a codec that decodes the text to the info `received`, and a
    -- `meta` with one value for each key and without the keys "phase" and "pin": NewReceiveSession of
    -- a p2pClient calls NewReceiveSession of the remote peer's service with what was received, that
    -- flag and that `meta`. If it makes a session whose difference can be encoded, to a text that
    -- decodes, the client returns the name of the session and what that text decodes to. If it
    -- returns an error, no answer is sent: the service is as it was, and the client waits for good.
    pub exchange_session_lem :
        (ds : Service)
        → ((after : Service) (sess : Session) (enc : Str) (diff : Manifest)
            → new_receive_session p.lib p.ng p.settings p.random received pin meta ds
              ≡ ok (after, sess)
            → p.codec.marshal_manifest sess.diff ≡ ok enc
            → p.codec.unmarshal_manifest enc ≡ ok diff
            → exchange_session info pin meta encoded ds ≡ ok (returned (ok (sess.id, diff)), after))
          × ((e : Error)
              → new_receive_session p.lib p.ng p.settings p.random received pin meta ds ≡ err e
              → exchange_session info pin meta encoded ds ≡ ok (blocked, ds))
    unfolding exchange_session client_new_receive_session headers_of lookup insert Str_discrete
    exchange_session_lem ds =
        let answered = answer_to msg ds msg-headers refl in
        (
          λ after sess enc diff ran coded read.
              rw (answered, exchange_session) (rw ran (rw coded (rw encodes (rw read refl)))),
          λ e refused. rw (answered, exchange_session) (rw refused (rw encodes refl)),
        )
