-- ===== src/Plugin/Cli.antt =====
-- dsync/dsync_ipfs_plugin/cli/dsync.go: the commands push, pull, allow and deny.
use dag.Base.{
  ℕ, ◌≡◌, ◌⊎◌, inl, inr, refl, Str, Str_discrete, bytes, Bool, true, false, not, List, [], ◌∷◌,
  ◌++◌, Option, none, some, Result, Error, ok, or_panic, ◌>>=◌, get_elem?,
}
use dag.Manifest.Build.{done, fail}
use dag.Http.{Reply}
use dag.Http.Server.{Request}
use dag.Plugin.{Platform, Daemon}
use dag.Plugin.Commands.{Host, params_of, push_handler, listen_local_commads, written_text, silent}

-- What http.DefaultClient returns for a request: the code, and ioutil.ReadAll of the body, with the
-- bytes before an error.
pub record Fetched : Type 0 where
  pub code : ℕ
  pub body : Str
  pub cut : Option Error

abbrev line : Str → Str
line s = s ++ 10 ∷ []

abbrev truth : Bool → Str
truth true = bytes "true"
truth false = bytes "false"

abbrev pub endpoint_of : Str → Str → Str → Bool → Str
endpoint_of path cid addr no_pin =
    path ++ bytes "?cid=" ++ cid ++ bytes "&addr=" ++ addr ++ bytes "&pin=" ++ truth (not no_pin)

abbrev pub pushed : Str → Str → Str
pushed cid addr = bytes "pushed cid " ++ cid ++ bytes " to:" ++ 10 ∷ 9 ∷ line addr

abbrev pub pulled : Str → Str → Str
pulled cid addr = bytes "pulled cid " ++ cid ++ bytes " from:" ++ 10 ∷ 9 ∷ line addr

-- A reply that arrives whole.
abbrev pub fetched : Reply → Error ⊎ Fetched
fetched reply = inr (record { code = reply.code; body = reply.message; cut = none })

-- `send` makes and sends a request: the method and the URL. `text` is the method Error.
module _ (send : Str → Str → Error ⊎ Fetched) (text : Error → Str) (cmd_addr : Str) where
  abbrev received : Error ⊎ Fetched → Str × Option Error
  received (inl e) = ([], some e)
  received (inr res) = (res.body, res.cut)

  unfoldable pub do_remote_http_req : Str → Str → Str × Option Error
  do_remote_http_req method endpoint = received (send method (cmd_addr ++ endpoint))

  -- What a command prints in the end.
  abbrev printed : Str → Str × Option Error → Str
  printed success (res, some e) = line (text e)
  printed success (res, none) = success

  abbrev printed_answer : Str × Option Error → Str
  printed_answer (res, some e) = line (text e)
  printed_answer (res, none) = line res

  abbrev arg : List Str → ℕ → Result Str
  arg args i = or_panic (get_elem? args i)

  -- The functions Run of the commands; `no_pin` is the flag. They return what they print.
  unfoldable pub push_run : Bool → List Str → Result Str
  unfolding do_remote_http_req
  push_run no_pin args = do
    cid ← arg args 0
    addr ← arg args 1
    ok (
        printed (pushed cid addr)
          (do_remote_http_req (bytes "POST") (endpoint_of (bytes "/push") cid addr no_pin)))

  unfoldable pub pull_run : Bool → List Str → Result Str
  unfolding do_remote_http_req
  pull_run no_pin args = do
    cid ← arg args 0
    addr ← arg args 1
    ok (
        printed (pulled cid addr)
          (do_remote_http_req (bytes "GET") (endpoint_of (bytes "/pull") cid addr no_pin)))

  unfoldable pub allow_run : List Str → Result Str
  unfolding do_remote_http_req
  allow_run args = do
    addr ← arg args 0
    ok (printed_answer (do_remote_http_req (bytes "POST") (bytes "/acl?&addr=" ++ addr)))

  unfoldable pub deny_run : List Str → Result Str
  unfolding do_remote_http_req
  deny_run args = do
    addr ← arg args 0
    ok (printed_answer (do_remote_http_req (bytes "DELETE") (bytes "/acl?&addr=" ++ addr)))

  -- The command line asks the plugin's server to pull, and gets what that answers to the request.
  -- Then the server starts nothing: for every host it writes an empty answer and leaves the daemon
  -- as it is. The command prints that the DAG was pulled.
  pub pull_run-does_nothing :
      (pf : Platform) (host : Host) (d : Daemon pf) (r : Request) (cid addr : Str) (no_pin : Bool)
      → r.method ≡ bytes "GET"
      → ((reply : Reply) (d' : Daemon pf)
          → listen_local_commads pf host (bytes "/pull") r d ≡ done (reply, d')
          → send (bytes "GET") (cmd_addr ++ endpoint_of (bytes "/pull") cid addr no_pin)
            ≡ fetched reply)
      → (listen_local_commads pf host (bytes "/pull") r d ≡ done (silent, d))
        × (pull_run no_pin (cid ∷ addr ∷ []) ≡ ok (pulled cid addr))
  unfolding pull_run do_remote_http_req listen_local_commads push_handler Str_discrete
  pull_run-does_nothing pf host d r cid addr no_pin get link =
      let answer : listen_local_commads pf host (bytes "/pull") r d ≡ done (silent, d) =
        rw get refl in
      (answer, rw (link silent d answer) refl)

  -- The command line asks the plugin's server to push, and gets what that answers to the request,
  -- but NewPush of the host returns an error. Then the server answers with the code 200 and the
  -- text of the error, and the command prints that the DAG was pushed.
  pub push_run-hides_error :
      (pf : Platform) (host : Host) (d : Daemon pf) (r : Request) (cid addr : Str) (no_pin : Bool)
      (e : Error)
      → r.method ≡ bytes "POST"
      → host.new_push (params_of host r).cid (params_of host r).addr (params_of host r).pin ≡ fail e
      → ((reply : Reply) (d' : Daemon pf)
          → listen_local_commads pf host (bytes "/push") r d ≡ done (reply, d')
          → send (bytes "POST") (cmd_addr ++ endpoint_of (bytes "/push") cid addr no_pin)
            ≡ fetched reply)
      → (listen_local_commads pf host (bytes "/push") r d ≡ done (written_text (host.text e), d))
        × (push_run no_pin (cid ∷ addr ∷ []) ≡ ok (pushed cid addr))
  unfolding push_run do_remote_http_req listen_local_commads push_handler Str_discrete
  push_run-hides_error pf host d r cid addr no_pin e post refused link =
      let answer : listen_local_commads pf host (bytes "/push") r d
          ≡ done (written_text (host.text e), d) =
        rw post (rw refused refl) in
      (answer, rw (link (written_text (host.text e)) d answer) refl)
