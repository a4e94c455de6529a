-- ===== src/Tests/OfPeers.antt =====
-- Messages between two peers, versions of the protocol, and archives.
use mathlib.Core.List.Memᴰ
use dag.Base.{
  ◌↔◌, ◌≤◌, if◌then◌else◌, ◌==◌, has_prefix, ℕ, ◌≡◌, refl, inl, inr, Str, Str_discrete, bytes, true,
  false, List, [], ◌∷◌, none, some, Error, Result, ok, err, Option, external, end_of_file, lookup,
  arith, sid_not_found, Dict,
}
use dag.Base.Int.{ℤ}
use dag.Manifest.{Manifest}
use dag.Info.{Info}
use dag.Session.{Session, status_errored}
use dag.Service.{Service, new_receive_session, receive_block}
use dag.Protocol.{digits_value, protocol_supports_dag_streaming}
use dag.Protocol.Versions.{Writes, HasNo, protocol_supports_dag_streaming_lem}
use dag.CarReader.{CarReader}
use dag.CarReader.Bytes.{Started, read_all, delivered, read_all_lem}
use dag.P2p.Handlers.{Peer, Codec}
use dag.P2p.Client.{blocked, returned}
use dag.P2p.Exchange.{exchange_session, exchange_session_lem, exchange_block, exchange_block_lem}
use dag.Manifest.Build.{done}
use dag.Service.Remotes.{syncable_remote, http_client, p2p_client}
use dag.Http.Server.{Server, Request, http_remote_handler, handle_get, typed, binary_mime_type}
use dag.Http.Server.{plain as plain_answer}
use dag.Http.Sessions.{exchange_http_session, exchange_http_session_lem}
use dag.Tests.Sample.{letters, getter}
use dag.Tests.Insertion.{insertion}
use dag.Tests.OfService.{settings, service}

abbrev dot : ℕ
dot = 46

zero_Writes : Writes (bytes "0") 0
unfolding digits_value
zero_Writes = record { filled = λ e. cc; value = refl }

two_Writes : Writes (bytes "2") 2
unfolding digits_value
two_Writes = record { filled = λ e. cc; value = refl }

zero_plain : HasNo dot (bytes "0")
zero_plain m = elim (Memᴰ.cases_cons m) [
  | inl e ↦ absurd (omega (arith, e))
  | inr n ↦ absurd (Memᴰ.not-nil n)
]

protocol_supports_dag_streaming_lem_example :
    (protocol_supports_dag_streaming (bytes "/dsync/0.2.0") ≡ true)
    ↔ ((0 ≤ 9223372036854775807) × (2 ≤ 9223372036854775807) × (2 ≤ 2))
protocol_supports_dag_streaming_lem_example =
    protocol_supports_dag_streaming_lem (bytes "0") (bytes "2") (bytes "0") 0 2 zero_Writes
      two_Writes zero_plain

abbrev reader : CarReader
reader = record {
  left = delivered (record { id = bytes "b"; frame = bytes "xyz" } ∷ []);
  buf = bytes "head";
  reports = true;
  senders = [];
}

read_all_lem_example :
    (last : CarReader) × (read_all 8 3 reader ≡ (last, (bytes "headxyz", err end_of_file)))
    × Started true last.senders [] [] (record { id = bytes "b"; frame = bytes "xyz" } ∷ [])
read_all_lem_example =
    read_all_lem 8 3 (record { id = bytes "b"; frame = bytes "xyz" } ∷ []) reader (omega arith) refl
      (omega arith)

-- A codec that writes manifests of one node, and infos with nothing but such a manifest.
abbrev alone : Str → Manifest
alone id = record { links = []; nodes = id ∷ [] }

abbrev bare : Str → Info
bare id = record { manifest = some (alone id); labels = []; sizes = none }

abbrev unwritten : Error
unwritten = external false (bytes "unwritten")

abbrev write_nodes : List (ℕ × ℕ) → List Str → Result Str
write_nodes [] (id ∷ []) = ok id
write_nodes [] [] = err unwritten
write_nodes [] (id ∷ next ∷ rest) = err unwritten
write_nodes (l ∷ links) nodes = err unwritten

abbrev write_info : Option Manifest → Dict Str ℤ → Option (List ℕ) → Result Str
write_info (some m) [] none = write_nodes m.links m.nodes
write_info (some m) [] (some sizes) = err unwritten
write_info (some m) (label ∷ labels) sizes = err unwritten
write_info none labels sizes = err unwritten

abbrev codec : Codec
codec = record {
  marshal_manifest = λ m. write_nodes m.links m.nodes;
  unmarshal_manifest = λ encoded. ok (alone encoded);
  marshal_info = λ i. write_info i.manifest i.labels i.sizes;
  unmarshal_info = λ encoded. ok (bare encoded);
}

abbrev peer : Peer
peer = record {
  lib = letters;
  ng = getter;
  srt = insertion;
  fuel = 9;
  settings = settings;
  codec = codec;
  put = λ content. ok content;
  get = λ id. ok id;
  text = λ e. bytes "failed";
  random = bytes "t";
}

abbrev plain : Str → Error
plain s = external false s

abbrev same_error : Error → Error
same_error e = e

abbrev meta : Dict Str Str
meta = (bytes "k", bytes "v") ∷ []

exchange_session_lem_example :
    ((after : Service) (sess : Session) (enc : Str) (diff : Manifest)
      → new_receive_session letters getter settings (bytes "t") (bare (bytes "g")) true meta service
        ≡ ok (after, sess)
      → codec.marshal_manifest sess.diff ≡ ok enc
      → codec.unmarshal_manifest enc ≡ ok diff
      → exchange_session peer
          (bytes "id")
          5
          (bytes "host")
          plain
          plain
          same_error
          same_error
          (bare (bytes "g"))
          true
          meta
          (bytes "g")
          service
        ≡ ok (returned (ok (sess.id, diff)), after))
    × ((e : Error)
        → new_receive_session letters getter settings
            (bytes "t")
            (bare (bytes "g"))
            true
            meta
            service
          ≡ err e
        → exchange_session peer
            (bytes "id")
            5
            (bytes "host")
            plain
            plain
            same_error
            same_error
            (bare (bytes "g"))
            true
            meta
            (bytes "g")
            service
          ≡ ok (blocked, service))
unfolding lookup Str_discrete
exchange_session_lem_example =
    exchange_session_lem peer (bytes "id") 5 (bytes "host") plain plain same_error same_error
      (bare (bytes "g")) (bare (bytes "g")) true meta (bytes "g") (refl, tt) refl refl refl refl
      service

-- The service does not know the session "u".
exchange_block_lem_example :
    exchange_block peer
      (bytes "id")
      5
      (bytes "host")
      plain
      plain
      same_error
      same_error
      (bytes "u")
      (bytes "g")
      (bytes "g")
      service
    ≡ ok (
      returned (
          ok (record {
            hash = bytes "g";
            status = status_errored;
            error = some (plain (bytes "failed"));
          })),
      service,
    )
unfolding receive_block lookup Str_discrete
exchange_block_lem_example =
    exchange_block_lem peer (bytes "id") 5 (bytes "host") plain plain same_error same_error
      (bytes "u") (bytes "g") (bytes "g") service service
      (record {
        hash = bytes "g";
        status = status_errored;
        error = some (sid_not_found (bytes "u"));
      })
      refl

abbrev first_node : List Str → Str
first_node [] = []
first_node (id ∷ ids) = id

abbrev server : Server
server = record {
  lib = letters;
  ng = getter;
  srt = insertion;
  fuel = 9;
  settings = settings;
  decode_json = λ encoded. ok (bare encoded);
  decode_cbor = λ encoded. ok (bare encoded);
  json_manifest = λ m. first_node m.nodes;
  json_info = λ i. codec.marshal_info i;
  put = λ content. ok content;
  archive = λ body. record { opened = none; blocks = []; ending = none };
  get = λ id. ok id;
  reader = λ m. ok reader;
  text = λ e. bytes "failed";
  remote_error = λ code message. external false message;
  random = bytes "t";
}

abbrev code_error : ℕ → Str → Error
code_error code message = external false message

abbrev decode_manifest : Str → Result Manifest
decode_manifest encoded = ok (alone encoded)

exchange_http_session_lem_example :
    ((after : Service) (sess : Session)
      → new_receive_session letters getter settings (bytes "t") (bare (bytes "g")) true meta service
        ≡ ok (after, sess)
      → decode_manifest (server.json_manifest sess.diff) ≡ ok sess.diff
      → exchange_http_session code_error server decode_manifest [] true meta (bytes "g") service
        ≡ ok (ok (sess.id, sess.diff), after))
    × ((e : Error)
        → new_receive_session letters getter settings
            (bytes "t")
            (bare (bytes "g"))
            true
            meta
            service
          ≡ err e
        → exchange_http_session code_error server decode_manifest [] true meta (bytes "g") service
          ≡ ok (err (code_error 400 (bytes "failed")), service))
unfolding lookup Str_discrete
exchange_http_session_lem_example =
    exchange_http_session_lem server code_error decode_manifest (bare (bytes "g"))
      (alone (bytes "g")) true meta (bytes "g") (refl, tt) refl refl refl service

abbrev get_b : Request
get_b = record {
  method = bytes "GET";
  query = (bytes "block", bytes "b") ∷ [];
  content_type = [];
  body = ok [];
}

-- A request for a block, and one that names neither a block nor a manifest.
get_b_answer :
    http_remote_handler server get_b service ≡ done (typed binary_mime_type (bytes "b"), service)
unfolding http_remote_handler handle_get lookup Str_discrete
get_b_answer = refl

get_nothing_answer :
    http_remote_handler server (record get_b { query = [] }) service
    ≡ done (plain_answer 400 (bytes "either manifest or block query params are required"), service)
unfolding http_remote_handler handle_get lookup Str_discrete
get_nothing_answer = refl

abbrev peer_id : Str → Result Str
peer_id [] = err unwritten
peer_id (c ∷ rest) = if c == 81 then ok (c ∷ rest) else err unwritten

-- An address of each kind.
http_address : syncable_remote peer_id true (bytes "http://h") ≡ ok (http_client (bytes "http://h"))
unfolding syncable_remote has_prefix
http_address = refl

peer_address : syncable_remote peer_id true (bytes "Qm") ≡ ok (p2p_client (bytes "Qm"))
unfolding syncable_remote has_prefix
peer_address = refl
