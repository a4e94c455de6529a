-- ===== src/Tests/OfHttp.antt =====
-- A block that the remote's store does not take, sent over HTTP.
use dag.Base.{
  sid_not_found, ℕ, ◌≡◌, refl, Str, bytes, some, none, Error, ok, err, external, false, lookup,
  Str_discrete,
}
use dag.Session.{Response, status_ok, status_errored, status_retry, receive}
use dag.Service.{receive_block, after_receive, with_session}
use dag.Service.Stream.{receive_blocks}
use dag.Http.{exchange, exchange_lem}
use dag.Tests.Sample.{letters}
use dag.Tests.OfService.{settings, sid, session, service, half}

abbrev full_disk : Error
full_disk = external false (bytes "no space")

abbrev text : Error → Str
text e = bytes "no space"

abbrev remote_error : ℕ → Str → Error
remote_error code message = external false message

abbrev again : Response
again = record { hash = bytes "g"; status = status_retry; error = some full_disk }

refused :
    receive_block letters settings sid (bytes "g") (err full_disk) service
    ≡ ok (again, with_session session sid service)
unfolding receive_block receive after_receive lookup Str_discrete
refused = refl

exchange_lem_example :
    (status_retry ≡ status_ok
      → exchange text remote_error letters settings sid (bytes "g") (err full_disk) service
        ≡ ok (
          record { hash = bytes "g"; status = status_ok; error = none },
          with_session session sid service,
        ))
    × ((e : Error)
        → status_retry ≡ status_errored
        → some full_disk ≡ some e
        → exchange text remote_error letters settings sid (bytes "g") (err full_disk) service
          ≡ ok (
            record {
              hash = bytes "g";
              status = status_errored;
              error = some (remote_error 500 (text e));
            },
            with_session session sid service,
          ))
    × ((e : Error)
        → status_retry ≡ status_retry
        → some full_disk ≡ some e
        → exchange text remote_error letters settings sid (bytes "g") (err full_disk) service
          ≡ ok (
            record {
              hash = bytes "g";
              status = status_errored;
              error = some (remote_error 400 (text e));
            },
            with_session session sid service,
          ))
exchange_lem_example =
    exchange_lem text remote_error letters settings sid (bytes "g") (err full_disk) service
      (with_session session sid service) again refused

-- A stream for a session that the remote does not know.
unknown :
    receive_blocks settings (bytes "u") half service
    ≡ ok (service, some (sid_not_found (bytes "u")))
unfolding receive_blocks lookup Str_discrete
unknown = refl
