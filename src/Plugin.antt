-- ===== src/Plugin.antt =====
-- dsync/dsync_ipfs_plugin/plugin.go: DsyncPlugin with its configuration and its allow list.
pub mod Access
pub mod Saved
pub mod Acl
pub mod Checks
pub mod Start
pub mod Commands
pub mod Cli
use dag.Base.{
  ℕ, suc, ◌≡◌, ◌⊎◌, inl, inr, refl, Str, Str_discrete, bytes, Bool, true, false, List, [], ◌∷◌,
  ◌++◌, Option, none, some, Result, Error, ok, err, panic, external, Dict, or_panic, ◌>>=◌,
  get_elem?,
}
use dag.Base.Int.{ℤ, negsuc, pos}
use dag.Info.{Info}
use dag.Manifest.{Manifest}
use dag.Service.{root_of}

-- The fields but for `host`. A nil list of addresses is empty.
pub record DsyncPlugin : Type 0 where
  pub config_path : Str
  pub log_level : Str
  pub http_commands_addr : Str
  pub http_remote_addr : Str
  pub max_dag_size : ℤ
  pub allow_addrs : List Str

-- What os.Open returns for a path.
pub data Opened : Type 0 where
  not_exist : Opened
  open_failed : Error → Opened
  contents : Str → Opened

-- What the plugin takes from libraries: the variable DSYNC_CONFIG, fsrepo.BestKnownPath,
-- filepath.Join, the files, the JSON codec and the method Error. `decode` reads the first value of
-- a text, `unmarshal` the whole text.
pub record Platform : Type 1 where
  pub env : Str
  pub best_known_path : Result Str
  pub join : Str → Str → Str
  pub Files : Type 0
  pub open_file : Str → Files → Opened
  pub write_file : Str → Str → Files → Files × Option Error
  pub marshal_indent : DsyncPlugin → Error ⊎ Str
  pub unmarshal : Str → Result DsyncPlugin
  pub decode : Str → Result DsyncPlugin
  pub text : Error → Str

-- pushPreCheck: the panics of an info without a manifest or of a manifest without nodes are its
-- own.
abbrev pub rejected : Error
rejected = external false (bytes "rejected for secret reasons")

abbrev judged : Str → Option Error
judged root = elim (Str_discrete root (bytes "BadHash")) [ yes _ ↦ some rejected | no _ ↦ none ]

unfoldable pub push_pre_check : DsyncPlugin → Info → Dict Str Str → Result (Option Error)
push_pre_check p info meta = do root ← root_of info; ok (judged root)

-- Whether the loop of AllowAddr finds the address.
abbrev pub listed : Str → List Str → Bool
listed addr [] = false
listed addr (a ∷ addrs) = elim (Str_discrete addr a) [ yes _ ↦ true | no _ ↦ listed addr addrs ]

abbrev keep_first : Str → Option (List Str) → Option (List Str)
keep_first a none = none
keep_first a (some addrs) = some (a ∷ addrs)

-- The list without the first entry that is the address, if there is one.
abbrev pub without : Str → List Str → Option (List Str)
without addr [] = none
without addr (a ∷ addrs) = elim (Str_discrete addr a) [
  | yes _ ↦ some addrs
  | no _ ↦ keep_first a (without addr addrs)
]

abbrev pub default_plugin : Str → DsyncPlugin
default_plugin cfg_path = record {
  config_path = cfg_path;
  log_level = bytes "info";
  http_commands_addr = bytes "127.0.0.1:2502";
  http_remote_addr = bytes ":2503";
  max_dag_size = negsuc 0;
  allow_addrs = [];
}

module _ (pf : Platform) where
  -- A plugin and the files around it.
  pub record Daemon : Type 0 where
    pub plugin : DsyncPlugin
    pub files : pf.Files

  abbrev pub config_path_of : Result Str
  config_path_of = do
    ipfs_repo_path ← pf.best_known_path
    ok (pf.join ipfs_repo_path (bytes "dsync.config.json"))

  -- NewDsyncPlugin panics on an error.
  abbrev defaults : Result Str → Result DsyncPlugin
  defaults panic = panic
  defaults (err e) = panic
  defaults (ok cfg_path) = ok (default_plugin cfg_path)

  unfoldable pub new_dsync_plugin : Result DsyncPlugin
  new_dsync_plugin = defaults config_path_of

  abbrev from_env : Result DsyncPlugin → Result DsyncPlugin
  from_env panic = panic
  from_env (err e) =
      err (external false (bytes "reading configuration JSON data from enviornment: " ++ pf.text e))
  from_env (ok cfg) = ok cfg

  abbrev from_file : Str → DsyncPlugin → Opened → Result DsyncPlugin
  from_file path p not_exist = ok p
  from_file path p (open_failed e) = err e
  from_file path p (contents raw) = do cfg ← pf.decode raw; ok (record cfg { config_path = path })

  abbrev by_file : Daemon → Result DsyncPlugin
  by_file d = do path ← config_path_of; from_file path d.plugin (pf.open_file path d.files)

  abbrev by_env : Str → Daemon → Result DsyncPlugin
  by_env [] d = by_file d
  by_env (b ∷ bs) d = from_env (pf.unmarshal (b ∷ bs))

  -- LoadConfig, with the plugin as it is afterwards; an error leaves it as it was.
  unfoldable pub load_config : Daemon → Result DsyncPlugin
  load_config d = by_env pf.env d

  -- Init: setting the log level changes nothing of the plugin.
  abbrev pub init : Daemon → Result DsyncPlugin
  unfolding load_config
  init d = load_config d

  abbrev pub written : Daemon → Error ⊎ Str → Daemon × Option Error
  written d (inl e) = (d, some e)
  written d (inr raw) =
      let (files, e) = pf.write_file d.plugin.config_path raw d.files in
      (record d { files = files }, e)

  unfoldable pub write_config : Daemon → Daemon × Option Error
  write_config d = written d (pf.marshal_indent d.plugin)

  abbrev pub with_addrs : Daemon → List Str → Daemon
  with_addrs d addrs = record d { plugin = record d.plugin { allow_addrs = addrs } }

  unfoldable pub allow_addr : Str → Daemon → Daemon × Option Error
  unfolding write_config
  allow_addr addr d = elim (listed addr d.plugin.allow_addrs) [
    | true ↦ (d, none)
    | false ↦ write_config (with_addrs d (d.plugin.allow_addrs ++ addr ∷ []))
  ]

  unfoldable pub deny_addr : Str → Daemon → Daemon × Option Error
  unfolding write_config
  deny_addr addr d = elim (without addr d.plugin.allow_addrs) [
    | none ↦ (d, none)
    | some addrs ↦ write_config (with_addrs d addrs)
  ]
