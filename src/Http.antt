-- ===== src/Http.antt =====
-- dsync/http.go: one block sent with HTTPClient.ReceiveBlock and taken by receiveBlockHTTP.
pub mod Calls
pub mod Server
pub mod Sessions
use dag.Base.{
  ℕ, ◌≡◌, refl, Str, Option, none, some, Result, Error, ok, err, or_panic, ◌>>=◌, ◌==◌,
  if◌then◌else◌, [], panic,
}
use dag.Ipld.{Ipld}
use dag.Session.{Status, Response, status_ok, status_errored, status_retry}
use dag.Service.{Settings, Service, receive_block}

-- The status code of a reply, and its body as a text.
pub record Reply : Type 0 where
  pub code : ℕ
  pub message : Str

abbrev pub status_code_ok : ℕ
status_code_ok = 200

abbrev pub status_code_bad_request : ℕ
status_code_bad_request = 400

abbrev pub status_code_internal_server_error : ℕ
status_code_internal_server_error = 500

-- `text` is the method Error of an error, and `remote_error` is fmt.Errorf for "remote error: %d %s".
module _ (text : Error → Str) (remote_error : ℕ → Str → Error) where
  -- `res.Err.Error()` of a nil error panics.
  abbrev failure : ℕ → Option Error → Result Reply
  failure code e = do err_value ← or_panic e; ok (record { code = code; message = text err_value })

  abbrev pub reply_of : Status → Option Error → Result Reply
  reply_of status_errored e = failure status_code_internal_server_error e
  reply_of status_retry e = failure status_code_bad_request e
  reply_of status_ok e = ok (record { code = status_code_ok; message = [] })

  abbrev pub answered : Response × Service → Result (Reply × Service)
  answered (res, ds) = do reply ← reply_of res.status res.error; ok (reply, ds)

  -- receiveBlockHTTP; `read` is the error of reading the body.
  unfoldable pub receive_block_http :
      (lib : Ipld)
      → Settings
      → Str
      → Str
      → Option Error
      → Result Str
      → Service
      → Result (Reply × Service)
  receive_block_http lib c sid hash read stored ds = elim read [
    | some e ↦ ok (record { code = status_code_bad_request; message = text e }, ds)
    | none ↦ receive_block lib c sid hash stored ds >>= answered
  ]

  -- The part of HTTPClient.ReceiveBlock behind the answer of the remote.
  abbrev pub response_of : Str → Reply → Response
  response_of hash reply =
      if reply.code == status_code_ok
      then (record { hash = hash; status = status_ok; error = none })
      else (record {
        hash = hash;
        status = status_errored;
        error = some (remote_error reply.code reply.message);
      })

  -- HTTPClient.ReceiveBlock, for a request that could be made and was answered; `err` of the
  -- exchange is a request that could not be sent.
  abbrev pub sent_response : Str → Result Reply → Result Response
  sent_response hash (ok reply) = ok (response_of hash reply)
  sent_response hash (err e) = ok (record { hash = hash; status = status_retry; error = some e })
  sent_response hash panic = panic

  -- A block from the client to the remote's service, and the response back.
  unfoldable pub exchange :
      (lib : Ipld) → Settings → Str → Str → Result Str → Service → Result (Response × Service)
  unfolding receive_block_http
  exchange lib c sid hash stored ds = do
    (reply, ds') ← receive_block_http lib c sid hash none stored ds
    res ← sent_response hash (ok reply)
    ok (res, ds')

  -- What the sender learns over HTTP of a call of ReceiveBlock on the remote: that the block was
  -- taken; or, for an error that can be tried again as for one that cannot, that the transfer
  -- failed, with the remote's text under the code 400 or 500. So a retry does not reach the sender.
  -- The service is as the call of ReceiveBlock leaves it.
  pub exchange_lem :
      (lib : Ipld) (c : Settings) (sid hash : Str) (stored : Result Str) (ds after : Service)
      (res : Response)
      → receive_block lib c sid hash stored ds ≡ ok (res, after)
      → (res.status ≡ status_ok
          → exchange lib c sid hash stored ds
            ≡ ok (record { hash = hash; status = status_ok; error = none }, after))
        × ((e : Error)
            → res.status ≡ status_errored
            → res.error ≡ some e
            → exchange lib c sid hash stored ds
              ≡ ok (
                record {
                  hash = hash;
                  status = status_errored;
                  error = some (remote_error 500 (text e));
                },
                after,
              ))
        × ((e : Error)
            → res.status ≡ status_retry
            → res.error ≡ some e
            → exchange lib c sid hash stored ds
              ≡ ok (
                record {
                  hash = hash;
                  status = status_errored;
                  error = some (remote_error 400 (text e));
                },
                after,
              ))
  unfolding exchange receive_block_http
  exchange_lem lib c sid hash stored ds after res ran = (
    λ good. rw (ran, exchange) (rw good refl),
    λ e bad failed. rw (ran, exchange) (rw bad (rw failed refl)),
    λ e again failed. rw (ran, exchange) (rw again (rw failed refl)),
  )
