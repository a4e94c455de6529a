-- ===== src/Http/Sessions.antt =====
-- dsync/http.go: NewReceiveSession, GetDagInfo, GetBlock and OpenBlockStream of HTTPClient. The query
-- that the URL of the remote has itself is an argument.
use dag.Base.{
  ℕ, ◌≡◌, ◌≢◌, refl, ◌∙◌, Str, Str_discrete, bytes, Bool, true, false, [], ◌∷◌, Option, none, some,
  Result, Error, ok, err, Dict, lookup, insert, delete, ◌>>=◌, ◌==◌, if◌then◌else◌,
  unknown_protocol_version, arith, lookup_iff,
}
use dag.Manifest.{Manifest}
use dag.Info.{Info}
use dag.Session.{Session}
use dag.CarReader.{CarReader}
use dag.Service.{Service, new_receive_session}
use dag.Http.{status_code_ok}
use dag.Http.Server.{
  Request, Answer, Server, is, car_mime_type, cbor_mime_type, json_mime_type, decode_dag_info_body,
  create_dsync_session, session_answer,
}
use dag.P2p.{headers_of, flat, text_of_bool}
use dag.P2p.Headers.{Distinct, Apart, headers_of-flat}

-- protocolIDFromHTTPData, for the header that tells the version.
abbrev pub protocol_id_from_http_data : Str → Str
protocol_id_from_http_data [] = bytes "/dsync/0.1.1"
protocol_id_from_http_data (c ∷ version) = c ∷ version

-- ProtocolVersion of HTTPClient, with `remProtocolID`.
abbrev pub http_protocol_version : Str → Result Str
http_protocol_version [] = err unknown_protocol_version
http_protocol_version (c ∷ version) = ok (c ∷ version)

-- `for key, val := range meta { q.Set(key, val) }`
unfoldable pub set_all : Dict Str Str → Dict Str Str → Dict Str Str
set_all [] q = q
set_all ((key, value) ∷ meta) q = set_all meta (insert Str_discrete key value q)

abbrev pub get_request : Dict Str Str → Request
get_request query = record { method = bytes "GET"; query = query; content_type = []; body = ok [] }

-- `for key, value := range meta { q.Add(key, value) }`: of a key that is there already, Get reads the
-- value that it had.
unfoldable pub add_all : Dict Str Str → Dict Str Str → Dict Str Str
add_all [] q = q
add_all ((key, value) ∷ meta) q = elim (lookup Str_discrete key q) [
  | none ↦ add_all meta (insert Str_discrete key value q)
  | some _ ↦ add_all meta q
]

-- Of GetDagInfo, GetBlock, NewReceiveSession and OpenBlockStream, where `u_query` is `u.Query()`.
abbrev pub info_request : Dict Str Str → Str → Dict Str Str → Request
info_request u_query id meta =
    get_request (set_all meta (insert Str_discrete (bytes "manifest") id u_query))

-- The URL of the remote is written before "?block=": it has no query of its own.
abbrev pub block_request : Str → Request
block_request id = get_request ((bytes "block", id) ∷ [])

abbrev pub session_request : Dict Str Str → Bool → Dict Str Str → Str → Request
session_request u_query pin_on_complete meta encoded = record {
  method = bytes "POST";
  query = set_all meta (insert Str_discrete (bytes "pin") (text_of_bool pin_on_complete) u_query);
  content_type = json_mime_type;
  body = ok encoded;
}

abbrev pub stream_request : Dict Str Str → Dict Str Str → Str → Request
stream_request u_query meta encoded = record {
  method = bytes "PATCH";
  query = add_all meta u_query;
  content_type = cbor_mime_type;
  body = ok encoded;
}

-- `remote` is fmt.Errorf for the call's format.
module _ (remote : ℕ → Str → Error) where
  abbrev pub when_ok : {A : Type 0} → Answer → Result A → Result A
  when_ok res value = if res.code == status_code_ok then value else err (remote res.code res.body)

  -- What NewReceiveSession returns; `decode` reads a manifest in JSON.
  abbrev pub session_result : (Str → Result Manifest) → Answer → Result (Str × Manifest)
  session_result decode res = when_ok res (do diff ← decode res.body; ok (res.sid, diff))

  -- What GetDagInfo returns; `decode` reads an info in JSON.
  abbrev pub info_result : (Str → Result Info) → Answer → Result Info
  info_result decode res = when_ok res (decode res.body)

  abbrev pub block_result : Answer → Result Str
  block_result res = when_ok res (ok res.body)

  -- What OpenBlockStream returns, with its error for another media type.
  abbrev pub stream_result : (Str → Error) → Answer → Result (Option CarReader)
  stream_result other res =
      when_ok res
        (if is res.content_type car_mime_type then ok res.written else err (other res.content_type))

  -- NewReceiveSession of HTTPClient with what the remote does, for requests that are sent and
  -- answered: what the client returns, and the service of the remote.
  unfoldable pub exchange_http_session :
      Server
      → (Str → Result Manifest)
      → Dict Str Str
      → Bool
      → Dict Str Str
      → Str
      → Service
      → Result (Result (Str × Manifest) × Service)
  unfolding create_dsync_session
  exchange_http_session s decode u_query pin_on_complete meta encoded ds = do
    (res, ds') ← create_dsync_session s (session_request u_query pin_on_complete meta encoded) ds
    ok (session_result decode res, ds')

set_all-headers_of : (meta q : Dict Str Str) → set_all meta q ≡ headers_of (flat meta) q
unfolding set_all headers_of
set_all-headers_of [] q = refl
set_all-headers_of ((k, v) ∷ meta) q = set_all-headers_of meta (insert Str_discrete k v q)

delete_absent :
    (k : Str) (m : Dict Str Str) → lookup Str_discrete k m ≡ none → delete Str_discrete k m ≡ m
unfolding lookup delete
delete_absent k [] h = refl
delete_absent k ((j, v) ∷ m) h =
    let same : lookup Str_discrete k m ≡ none → delete Str_discrete k m ≡ m = delete_absent k m in
    ground (arith, same)

Apart-one :
    (a v : Str) (meta : Dict Str Str) → lookup Str_discrete a meta ≡ none → Apart meta ((a, v) ∷ [])
unfolding lookup
Apart-one a v meta free k there =
    let other : a ≢ k = λ same. (lookup_iff Str_discrete k meta).1 there (rw (← same) free) in
    ground (arith, other)

text_of_bool_is : (b : Bool) → is (text_of_bool b) (bytes "true") ≡ b
unfolding Str_discrete
text_of_bool_is true = refl
text_of_bool_is false = refl

module _ (s : Server) (remote : ℕ → Str → Error) (decode : Str → Result Manifest) (info : Info)
    (m : Manifest) (pin : Bool) (meta : Dict Str Str) (encoded : Str) (d : Distinct meta)
    (no_pin : lookup Str_discrete (bytes "pin") meta ≡ none)
    (decodes : s.decode_json encoded ≡ ok info) (has : info.manifest ≡ some m) where
  abbrev req : Request
  req = session_request [] pin meta encoded

  req-query : req.query ≡ (bytes "pin", text_of_bool pin) ∷ meta
  unfolding insert Str_discrete
  req-query =
      set_all-headers_of meta ((bytes "pin", text_of_bool pin) ∷ [])
      ∙ headers_of-flat meta ((bytes "pin", text_of_bool pin) ∷ []) d
          (Apart-one (bytes "pin") (text_of_bool pin) meta no_pin)

  -- The answer of the remote to a request with this query.
  answer_to :
      (r : Request) (ds : Service)
      → r.query ≡ (bytes "pin", text_of_bool pin) ∷ meta
      → r.body ≡ ok encoded
      → r.content_type ≡ json_mime_type
      → create_dsync_session s r ds
        ≡ session_answer s r ds
            (new_receive_session s.lib s.ng s.settings s.random info pin meta ds)
  unfolding create_dsync_session decode_dag_info_body lookup delete Str_discrete
  answer_to r ds same carried media =
      let kept = delete_absent (bytes "pin") meta no_pin in
      rw carried
        (rw media (rw decodes (rw has (rw same (rw (text_of_bool_is pin) (rw kept refl))))))

  -- For a remote whose URL has no query of its own, a `meta` with one value for each key and without
  -- the key "pin", and a body that the remote decodes to an info with a manifest: NewReceiveSession
  -- of HTTPClient calls NewReceiveSession of the remote's service with that info, that flag and that
  -- `meta`. If it makes a session and the client can decode its difference, the client returns the
  -- name of the session and its difference. If it returns an error, the service is as it was, and
  -- the client returns the text under the code 400.
  pub exchange_http_session_lem :
      (ds : Service)
      → ((after : Service) (sess : Session)
          → new_receive_session s.lib s.ng s.settings s.random info pin meta ds ≡ ok (after, sess)
          → decode (s.json_manifest sess.diff) ≡ ok sess.diff
          → exchange_http_session remote s decode [] pin meta encoded ds
            ≡ ok (ok (sess.id, sess.diff), after))
        × ((e : Error)
            → new_receive_session s.lib s.ng s.settings s.random info pin meta ds ≡ err e
            → exchange_http_session remote s decode [] pin meta encoded ds
              ≡ ok (err (remote 400 (s.text e)), ds))
  unfolding exchange_http_session
  exchange_http_session_lem ds =
      let answered = answer_to req ds req-query refl refl in
      (
        λ after sess ran coded. rw (answered, exchange_http_session) (rw ran (rw coded refl)),
        λ e refusal. rw (answered, exchange_http_session) (rw refusal refl),
      )
