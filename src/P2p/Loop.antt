-- ===== src/P2p/Loop.antt =====
-- dsync/p2p.go: handleStream, the loop over the messages that a stream brings.
use dag.Base.{
  ◌≡◌, ◌≢◌, ap, ◌∙◌, refl, inl, inr, Result-cases, Str, Str_discrete, List, [], ◌∷◌, Option, none,
  some, Result, Error, ok, err, panic, lookup, insert, if◌then◌else◌,
}
use dag.Manifest.Build.{Outcome, done, fail, crash, out_of_fuel}
use dag.Session.{Response}
use dag.Service.{Service}
use dag.P2p.{
  Message, update, headers_of, mt_new_receive, mt_receive_block, mt_get_dag_info, mt_get_block,
  mt_remove_cid,
}
use dag.P2p.Handlers.{
  Peer, Handled, is, handle_new_receive, handle_receive_block, handle_req_manifest,
  handle_get_block, handle_remove_cid, block_reply, hang_up, response, error_reply,
}

-- No handler returns an error.
abbrev of_result : {A : Type 0} → Result A → Outcome A
of_result (ok a) = done a
of_result (err e) = fail e
of_result panic = crash

abbrev beside : {A : Type 0} → Service → Outcome A → Outcome (A × Service)
beside ds (done a) = done (a, ds)
beside ds (fail e) = fail e
beside ds crash = crash
beside ds out_of_fuel = out_of_fuel

-- `c.handlers[msg.Type]` and its call; a type without a handler ends the loop as hanging up does.
-- `send` is the error with which the sending of an answer fails.
unfoldable pub dispatch : Peer → Option Error → Message → Service → Outcome (Handled × Service)
dispatch p send msg ds =
    if is msg.msg_type mt_new_receive
    then of_result (handle_new_receive p send msg ds)
    else (if is msg.msg_type mt_receive_block
        then of_result (handle_receive_block p send msg ds)
        else (if is msg.msg_type mt_get_dag_info
            then beside ds (handle_req_manifest p send msg ds)
            else (if is msg.msg_type mt_get_block
                then beside ds (of_result (handle_get_block p send msg))
                else (if is msg.msg_type mt_remove_cid
                    then done ((handle_remove_cid p send msg).1, ds)
                    else done (hang_up, ds)))))

abbrev with_sent :
    Option Message → Outcome (List Message × Service) → Outcome (List Message × Service)
with_sent none rest = rest
with_sent (some m) (done (ms, ds)) = done (m ∷ ms, ds)
with_sent (some m) (fail e) = fail e
with_sent (some m) crash = crash
with_sent (some m) out_of_fuel = out_of_fuel

-- The messages that are sent, and the service at the end of the loop. Each message that comes in has
-- the error of sending its answer, and after the last one ReceiveMessage returns an error.
unfoldable pub handle_stream :
    Peer → List (Message × Option Error) → Service → Outcome (List Message × Service)
unfolding dispatch
handle_stream p [] ds = done ([], ds)
handle_stream p ((msg, send) ∷ messages) ds = elim (dispatch p send msg ds) [
  | crash ↦ crash
  | fail e ↦ fail e
  | out_of_fuel ↦ out_of_fuel
  | done handled ↦
      if handled.0.hangup
      then with_sent handled.0.reply (done ([], handled.1))
      else with_sent handled.0.reply (handle_stream p messages handled.1)
]

module _ (p q : Peer) (send late : Option Error) (msg : Message) (ds : Service) where
  abbrev Fed : Message → List Message → Type 0
  Fed answer sent = handle_stream q ((answer, late) ∷ []) ds ≡ done (sent, ds)

  block_answered :
      (cid : Str) (rr : Response)
      → Fed (block_reply p send (record msg { msg_type = mt_receive_block }) cid rr) []
  unfolding handle_stream dispatch headers_of lookup insert Str_discrete handle_receive_block
  block_answered cid rr = refl

  get_answered :
      (content : Str)
      → late ≡ none
      → q.get [] ≢ panic
      → (sent : Message) × Fed
          (update content (response p send (record msg { msg_type = mt_get_block })))
          (sent ∷ [])
        × (sent.msg_type ≡ mt_get_block)
  unfolding handle_stream dispatch headers_of lookup insert Str_discrete handle_get_block
  get_answered content well calm =
      let m = update content (response p send (record msg { msg_type = mt_get_block })) in
      elim (Result-cases (q.get [])) [
        | inl (found, e) ↦
            (update found (response q none m), rw well (rw (e, handle_stream) refl), refl)
        | inr (inl (why, e)) ↦
            (error_reply q none m why, rw well (rw (e, handle_stream) refl), refl)
        | inr (inr e) ↦ absurd (calm e)
      ]

  -- The client's side of a stream runs the same loop as the remote's. Fed with the answer to a
  -- message "receive_block", it sends nothing and leaves its service as it is. Fed with the answer of
  -- a peer that has the block to a message "get_block", it takes that for a request, and sends a
  -- message "get_block" of its own, if the answer can be sent and Get at the empty path does not
  -- panic.
  pub answers_lem :
      ((cid : Str) (rr : Response)
        → msg.msg_type ≡ mt_receive_block
        → handle_stream q ((block_reply p send msg cid rr, late) ∷ []) ds ≡ done ([], ds))
      × ((content : Str)
          → msg.msg_type ≡ mt_get_block
          → late ≡ none
          → q.get [] ≢ panic
          → (sent : Message) × (handle_stream q
                ((update content (response p send msg), late) ∷ [])
                ds
              ≡ done (sent ∷ [], ds))
            × (sent.msg_type ≡ mt_get_block))
  answers_lem = (
    λ cid rr kind.
        ap
          (λ t.
            handle_stream q ((block_reply p send (record msg { msg_type = t }) cid rr, late) ∷ [])
              ds)
          kind
        ∙ block_answered cid rr,
    λ content kind well calm.
        let (sent, fed, same) = get_answered content well calm in
        (
          sent,
          ap
                (λ t.
                  handle_stream q
                    ((update content (response p send (record msg { msg_type = t })), late) ∷ [])
                    ds)
                kind
              ∙ fed,
          same,
        ),
  )
