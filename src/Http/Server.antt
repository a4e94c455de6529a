-- ===== src/Http/Server.antt =====
-- dsync/http.go: HTTPRemoteHandler. Reading and writing of requests belongs to net/http, and the
-- encodings are parameters.
use dag.Base.{
  ℕ, Str, Str_discrete, bytes, Bool, true, false, List, [], ◌∷◌, Option, none, some, Result, Error,
  ok, err, panic, external, Dict, lookup, delete, ◌>>=◌, if◌then◌else◌,
}
use dag.Base.Sorting.{Sorting}
use dag.Ipld.{Ipld, NodeGetter}
use dag.Manifest.{Manifest}
use dag.Manifest.Build.{Outcome, done, fail, crash, out_of_fuel}
use dag.Info.{Info}
use dag.Session.{Session}
use dag.Stream.{Archive}
use dag.CarReader.{CarReader}
use dag.Service.{Settings, Service, new_receive_session}
use dag.Service.Queries.{get_dag_info, remove_cid}
use dag.Service.Stream.{receive_blocks}
use dag.Service.Remotes.{dsync_protocol_id, open_block_stream}
use dag.Http.{
  Reply, status_code_ok, status_code_bad_request, status_code_internal_server_error,
  receive_block_http,
}

-- A request as the handler reads it. `body` is reading it to its end.
pub record Request : Type 0 where
  pub method : Str
  pub query : Dict Str Str
  pub content_type : Str
  pub body : Result Str

-- A response as the handler writes it; `written` is the body that comes from an open stream, if any.
pub record Answer : Type 0 where
  pub code : ℕ
  pub version : Str
  pub sid : Str
  pub content_type : Str
  pub body : Str
  pub written : Option CarReader

-- The server's Dsync, and what the libraries return to it. `json_manifest` and `json_info` encode;
-- `put` is Put of the local blocks, `archive` what AddAllFromCARReader meets in a body, `get` GetBlock,
-- `reader` NewManifestCARReader over the local nodes, `text` the method Error of an error,
-- `remote_error` fmt.Errorf where a client reports a code, and `random` the name that newSession
-- draws.
pub record Server : Type 1 where
  pub lib : Ipld
  pub ng : NodeGetter lib
  pub srt : Sorting
  pub fuel : ℕ
  pub settings : Settings
  pub decode_json : Str → Result Info
  pub decode_cbor : Str → Result Info
  pub json_manifest : Manifest → Str
  pub json_info : Info → Result Str
  pub put : Str → Result Str
  pub archive : Result Str → Archive
  pub get : Str → Result Str
  pub reader : Manifest → Result CarReader
  pub text : Error → Str
  pub remote_error : ℕ → Str → Error
  pub random : Str

abbrev pub car_mime_type : Str
car_mime_type = bytes "archive/car"

abbrev pub cbor_mime_type : Str
cbor_mime_type = bytes "application/cbor"

abbrev pub json_mime_type : Str
json_mime_type = bytes "application/json"

abbrev pub binary_mime_type : Str
binary_mime_type = bytes "application/octet-stream"

-- `s == t`
abbrev pub is : Str → Str → Bool
is s t = elim (Str_discrete s t) [ yes _ ↦ true | no _ ↦ false ]

abbrev value_or_empty : Option Str → Str
value_or_empty none = []
value_or_empty (some value) = value

-- FormValue. No body of these requests is a form.
abbrev pub form_value : Str → Request → Str
form_value key r = value_or_empty (lookup Str_discrete key r.query)

-- A text under a code, with the header for the version.
abbrev pub plain : ℕ → Str → Answer
plain code body = record {
  code = code;
  version = dsync_protocol_id;
  sid = [];
  content_type = [];
  body = body;
  written = none;
}

abbrev pub typed : Str → Str → Answer
typed content_type body = record (plain status_code_ok body) { content_type = content_type }

abbrev body_error : Error
body_error = external false (bytes "body must be a json dag info object")

abbrev pub with_manifest : Info → Result Info
with_manifest info = elim info.manifest [ none ↦ err body_error | some m ↦ ok info ]

module _ (s : Server) (r : Request) where
  -- decodeDAGInfoBody
  unfoldable pub decode_dag_info_body : Result Info
  decode_dag_info_body = do
    raw ← r.body
    info ← if is r.content_type cbor_mime_type then s.decode_cbor raw else s.decode_json raw
    with_manifest info

  abbrev pub refused : ℕ → Error → Answer
  refused code e = plain code (s.text e)

  -- What createDsyncSession writes when the service has answered.
  abbrev pub session_answer : Service → Result (Service × Session) → Result (Answer × Service)
  session_answer ds panic = panic
  session_answer ds (err e) = ok (refused status_code_bad_request e, ds)
  session_answer ds (ok (ds', sess)) =
      ok (record (typed json_mime_type (s.json_manifest sess.diff)) { sid = sess.id }, ds')

  abbrev pub session_for : Service → Result Info → Result (Answer × Service)
  session_for ds panic = panic
  session_for ds (err e) = ok (refused status_code_bad_request e, ds)
  session_for ds (ok info) = session_answer ds (
      new_receive_session s.lib s.ng s.settings s.random info
        (is (form_value (bytes "pin") r) (bytes "true")) (delete Str_discrete (bytes "pin") r.query)
        ds)

  -- createDsyncSession
  unfoldable pub create_dsync_session : Service → Result (Answer × Service)
  unfolding decode_dag_info_body
  create_dsync_session ds = session_for ds decode_dag_info_body

  abbrev error_answer : ℕ → Option Error → Answer
  error_answer code none = plain status_code_ok []
  error_answer code (some e) = refused code e

  abbrev of_result : {A : Type 0} → Result A → Outcome A
  of_result (ok a) = done a
  of_result (err e) = fail e
  of_result panic = crash

  -- `case http.MethodPut`
  abbrev block_answer : Service → Result Str → Result (Reply × Service)
  block_answer ds panic = panic
  block_answer ds (err e) =
      receive_block_http s.text s.remote_error s.lib s.settings (form_value (bytes "sid") r)
        (form_value (bytes "hash") r) (some e) (err e) ds
  block_answer ds (ok raw) =
      receive_block_http s.text s.remote_error s.lib s.settings (form_value (bytes "sid") r)
        (form_value (bytes "hash") r) none (s.put raw) ds

  unfoldable pub handle_put : Service → Result (Answer × Service)
  handle_put ds =
      if is r.content_type car_mime_type
      then (receive_blocks s.settings (form_value (bytes "sid") r) (s.archive r.body) ds
          >>= λ (ds', e). ok (error_answer status_code_bad_request e, ds'))
      else (block_answer ds r.body >>= λ (reply, ds'). ok (plain reply.code reply.message, ds'))

  abbrev encoded_info : Result Str → Outcome Answer
  encoded_info panic = crash
  encoded_info (err e) = done (refused status_code_internal_server_error e)
  encoded_info (ok content) = done (typed json_mime_type content)

  abbrev info_answer : Outcome Info → Outcome Answer
  info_answer (done info) = encoded_info (s.json_info info)
  info_answer (fail e) = done (refused status_code_internal_server_error e)
  info_answer crash = crash
  info_answer out_of_fuel = out_of_fuel

  abbrev content_answer : Result Str → Outcome Answer
  content_answer panic = crash
  content_answer (err e) = done (refused status_code_internal_server_error e)
  content_answer (ok content) = done (typed binary_mime_type content)

  -- With the parameters "manifest" and "block".
  abbrev get_case : Service → Str → Str → Outcome Answer
  get_case ds [] [] =
      done
        (plain status_code_bad_request (bytes "either manifest or block query params are required"))
  get_case ds [] (b ∷ block_id) = content_answer (s.get (b ∷ block_id))
  get_case ds (c ∷ mfst_id) block_id = info_answer (
      get_dag_info s.lib s.ng s.srt s.fuel s.settings (c ∷ mfst_id)
        (delete Str_discrete (bytes "manifest") r.query) ds)

  -- `case http.MethodGet`
  unfoldable pub handle_get : Service → Outcome Answer
  handle_get ds = get_case ds (form_value (bytes "manifest") r) (form_value (bytes "block") r)

  abbrev stream_answer : Result CarReader → Result Answer
  stream_answer panic = panic
  stream_answer (err e) = ok (refused status_code_bad_request e)
  stream_answer (ok rdr) = ok (record (typed car_mime_type []) { written = some rdr })

  abbrev stream_for : Result Info → Result Answer
  stream_for panic = panic
  stream_for (err e) = ok (refused status_code_bad_request e)
  stream_for (ok info) = stream_answer (open_block_stream s.settings s.reader info r.query)

  -- `case http.MethodPatch`
  unfoldable pub handle_patch : Result Answer
  unfolding decode_dag_info_body
  handle_patch = stream_for decode_dag_info_body

  -- `case http.MethodDelete`, with the calls of `Rm`.
  unfoldable pub handle_delete : List Str × Answer
  handle_delete =
      let (unpinned, e) =
        remove_cid s.settings (form_value (bytes "cid") r)
          (delete Str_discrete (bytes "cid") r.query) in
      (unpinned, error_answer status_code_internal_server_error e)

  abbrev beside : Service → Outcome Answer → Outcome (Answer × Service)
  beside ds (done a) = done (a, ds)
  beside ds (fail e) = fail e
  beside ds crash = crash
  beside ds out_of_fuel = out_of_fuel

  -- HTTPRemoteHandler. Another method gets the code 200.
  unfoldable pub http_remote_handler : Service → Outcome (Answer × Service)
  unfolding create_dsync_session handle_put handle_get handle_patch handle_delete
  http_remote_handler ds =
      if is r.method (bytes "POST")
      then of_result (create_dsync_session ds)
      else (if is r.method (bytes "PUT")
          then of_result (handle_put ds)
          else (if is r.method (bytes "GET")
              then beside ds (handle_get ds)
              else (if is r.method (bytes "PATCH")
                  then beside ds (of_result handle_patch)
                  else (if is r.method (bytes "DELETE")
                      then done (handle_delete.1, ds)
                      else done (plain status_code_ok [], ds)))))
