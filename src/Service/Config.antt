-- ===== src/Service/Config.antt =====
-- dsync/dsync.go: Config, and New, as far as it sets the receiving side up.
use dag.Base.{
  ◌≡◌, refl, Str, bytes, Bool, false, List, [], ◌∷◌, Option, none, some, Result, Error, ok, err,
  external, Dict, sid_not_found, remove_not_supported, lookup,
}
use dag.Ipld.{Ipld, NodeGetter}
use dag.Info.{Info}
use dag.Store.{Infos}
use dag.Session.{status_errored}
use dag.Service.{Hook, PinApi, Settings, Service, new_receive_session, receive_block}
use dag.Service.Queries.{remove_cid}

-- The fields that concern the receiving side. `none` is a nil hook, store or API, and `put_error` is
-- what PutDAGInfo of the store answers.
pub record Config : Type 0 where
  pub info_store : Option Infos
  pub put_error : Str → Info → Option Error
  pub pin_api : Option PinApi
  pub require_all_blocks : Bool
  pub allow_removes : Bool
  pub push_pre_check : Option Hook
  pub push_final_check : Option Hook
  pub push_complete : Option Hook
  pub get_dag_info_check : Option Hook
  pub open_block_stream_check : Option Hook
  pub remove_check : Option Hook

abbrev pub refusal : Error
refusal = external false (bytes "remote is not configured to accept DAGs")

abbrev pub default_dag_precheck : Hook
default_dag_precheck info meta = some refusal

abbrev pub default_dag_final_check : Hook
default_dag_final_check info meta = none

abbrev pub default_config : Config
default_config = record {
  info_store = none;
  put_error = λ root info. none;
  pin_api = none;
  require_all_blocks = false;
  allow_removes = false;
  push_pre_check = some default_dag_precheck;
  push_final_check = some default_dag_final_check;
  push_complete = none;
  get_dag_info_check = none;
  open_block_stream_check = none;
  remove_check = none;
}

-- The options in turn.
abbrev pub apply_options : List (Config → Config) → Config → Config
apply_options [] cfg = cfg
apply_options (opt ∷ opts) cfg = apply_options opts (opt cfg)

abbrev pub settings_of : Config → Hook → Hook → Settings
settings_of cfg pre_check final_check = record {
  require_all_blocks = cfg.require_all_blocks;
  allow_removes = cfg.allow_removes;
  pre_check = pre_check;
  final_check = final_check;
  on_complete_hook = cfg.push_complete;
  get_dag_info_check = cfg.get_dag_info_check;
  open_block_stream_check = cfg.open_block_stream_check;
  remove_check = cfg.remove_check;
  pin = cfg.pin_api;
  put_error = cfg.put_error;
}

abbrev pub service_of : Config → Service
service_of cfg = record {
  session_pool = [];
  session_cancels = [];
  cancelled = [];
  info_store = cfg.info_store;
  pinned = [];
  completed = [];
}

-- Validate, and the part of New behind it.
abbrev pub validated : Config → Option Hook → Option Hook → Result (Settings × Service)
validated cfg none final_check = err (external false (bytes "PreCheck is required"))
validated cfg (some pre_check) none = err (external false (bytes "FinalCheck is required"))
validated cfg (some pre_check) (some final_check) =
    ok (settings_of cfg pre_check final_check, service_of cfg)

unfoldable pub new_dsync : List (Config → Config) → Result (Settings × Service)
new_dsync opts =
    let cfg = apply_options opts default_config in
    validated cfg cfg.push_pre_check cfg.push_final_check

-- New without options gives a service that refuses every transfer with the error of the default
-- precheck, knows no session, so that every block is answered with an error about its session and
-- changes nothing, and refuses every removal without unpinning.
pub new_dsync_refuses :
    (c : Settings) × (ds : Service) × (new_dsync [] ≡ ok (c, ds))
    × ((lib : Ipld) (ng : NodeGetter lib) (random : Str) (info : Info) (pin : Bool)
          (meta : Dict Str Str)
        → new_receive_session lib ng c random info pin meta ds ≡ err refusal)
    × ((lib : Ipld) (sid hash : Str) (stored : Result Str)
        → receive_block lib c sid hash stored ds
          ≡ ok (
            record { hash = hash; status = status_errored; error = some (sid_not_found sid) },
            ds,
          ))
    × ((cid : Str) (meta : Dict Str Str) → remove_cid c cid meta ≡ ([], some remove_not_supported))
unfolding new_dsync new_receive_session receive_block lookup remove_cid
new_dsync_refuses = (
  settings_of default_config default_dag_precheck default_dag_final_check,
  service_of default_config,
  refl,
  λ lib ng random info pin meta. refl,
  λ lib sid hash stored. refl,
  λ cid meta. refl,
)
