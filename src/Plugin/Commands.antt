-- ===== src/Plugin/Commands.antt =====
-- dsync/dsync_ipfs_plugin/plugin.go: the handlers for local commands, and which path has which.
use dag.Base.{
  ℕ, ◌⊎◌, inl, inr, Str, bytes, Bool, [], Option, none, some, Result, Error, ok, err, panic,
  if◌then◌else◌,
}
use dag.Base.Sorting.{Sorting}
use dag.Ipld.{Ipld, NodeGetter}
use dag.Manifest.Build.{Outcome, done, fail, crash, out_of_fuel}
use dag.Http.{Reply, status_code_ok, status_code_internal_server_error}
use dag.Http.Server.{Request, form_value, is}
use dag.Push.Begin.{Push}
use dag.Pull.Begin.{Pull}
use dag.Service.Remotes.{Syncable, dsync_new_push, dsync_new_pull}
use dag.Plugin.{Platform, Daemon, allow_addr, deny_addr}

pub record MoveParams : Type 0 where
  pub cid : Str
  pub addr : Str
  pub pin : Bool

-- What a Dsync does for the handlers. `push_do` and `pull_do` are what Do returns, and `marshal` is
-- json.Marshal of the parameters.
pub record Host : Type 0 where
  pub new_push : Str → Str → Bool → Outcome (Push × Syncable)
  pub push_do : Push × Syncable → Option Error
  pub new_pull : Str → Str → Result (Pull × Syncable)
  pub pull_do : Pull × Syncable → Option Error
  pub marshal : MoveParams → Error ⊎ Str
  pub text : Error → Str

-- The host that is a Dsync.
abbrev pub host_of :
    (Str → Result Str)
    → Bool
    → (lib : Ipld) → NodeGetter lib
    → Sorting
    → ℕ
    → (Push × Syncable → Option Error)
    → (Pull × Syncable → Option Error)
    → (MoveParams → Error ⊎ Str)
    → (Error → Str)
    → Host
host_of decode has_p2p lib ng srt fuel push_do pull_do marshal text = record {
  new_push = dsync_new_push decode has_p2p lib ng srt fuel;
  push_do = push_do;
  new_pull = λ cid addr. dsync_new_pull decode has_p2p cid addr [];
  pull_do = pull_do;
  marshal = marshal;
  text = text;
}

abbrev pub status_code_not_found : ℕ
status_code_not_found = 404

abbrev pub written_text : Str → Reply
written_text message = record { code = status_code_ok; message = message }

-- A handler that writes nothing.
abbrev pub silent : Reply
silent = written_text []

module _ (host : Host) where
  abbrev pub params_of : Request → MoveParams
  params_of r = record {
    cid = form_value (bytes "cid") r;
    addr = form_value (bytes "addr") r;
    pin = is (form_value (bytes "pin") r) (bytes "true");
  }

  -- An error of json.Marshal is written under the code 500, and nothing behind it.
  abbrev moved : Error ⊎ Str → Reply
  moved (inl e) = record { code = status_code_internal_server_error; message = host.text e }
  moved (inr raw) = written_text raw

  abbrev after_do : MoveParams → Option Error → Reply
  after_do p (some e) = written_text (host.text e)
  after_do p none = moved (host.marshal p)

  abbrev after_new_push : MoveParams → Outcome (Push × Syncable) → Outcome Reply
  after_new_push p (done push) = done (after_do p (host.push_do push))
  after_new_push p (fail e) = done (written_text (host.text e))
  after_new_push p crash = crash
  after_new_push p out_of_fuel = out_of_fuel

  unfoldable pub push_handler : Request → Outcome Reply
  push_handler r =
      if is r.method (bytes "POST")
      then (let p = params_of r in after_new_push p (host.new_push p.cid p.addr p.pin))
      else done silent

  abbrev after_new_pull : MoveParams → Result (Pull × Syncable) → Outcome Reply
  after_new_pull p (ok pull) = done (after_do p (host.pull_do pull))
  after_new_pull p (err e) = done (written_text (host.text e))
  after_new_pull p panic = crash

  unfoldable pub pull_handler : Request → Outcome Reply
  pull_handler r =
      if is r.method (bytes "GET")
      then (let p = params_of r in after_new_pull p (host.new_pull p.cid p.addr))
      else done (record { code = status_code_not_found; message = [] })

module _ (pf : Platform) where
  abbrev pub changed : Daemon pf × Option Error → Reply × Daemon pf
  changed (d, none) = (silent, d)
  changed (d, some e) =
      (record { code = status_code_internal_server_error; message = pf.text e }, d)

  unfoldable pub acl_handler : Request → Daemon pf → Reply × Daemon pf
  unfolding allow_addr deny_addr
  acl_handler r d =
      let addr = form_value (bytes "addr") r in
      if is r.method (bytes "POST")
      then changed (allow_addr pf addr d)
      else (if is r.method (bytes "DELETE")
          then changed (deny_addr pf addr d)
          else (record { code = status_code_not_found; message = [] }, d))

  abbrev beside : Daemon pf → Outcome Reply → Outcome (Reply × Daemon pf)
  beside d (done reply) = done (reply, d)
  beside d (fail e) = fail e
  beside d crash = crash
  beside d out_of_fuel = out_of_fuel

  -- listenLocalCommads: http.ServeMux answers any other path with the code 404.
  unfoldable pub listen_local_commads :
      Host → Str → Request → Daemon pf → Outcome (Reply × Daemon pf)
  unfolding push_handler acl_handler
  listen_local_commads host path r d =
      if is path (bytes "/push")
      then beside d (push_handler host r)
      else (if is path (bytes "/pull")
          then beside d (push_handler host r)
          else (if is path (bytes "/acl")
              then done (acl_handler r d)
              else done (
                record { code = status_code_not_found; message = bytes "404 page not found" },
                d,
              )))
