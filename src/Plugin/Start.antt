-- ===== src/Plugin/Start.antt =====
-- dsync/dsync_ipfs_plugin/plugin.go: Start, up to the goroutine that listens for local commands.
use dag.Base.{
  ◌≡◌, ◌≢◌, ◌⊎◌, inl, inr, refl, sym, ◌∙◌, Str, bytes, false, List, [], ◌∷◌, Option, none, some,
  Result, Error, ok, err, ◌>>=◌, List-cases,
}
use dag.Service.{Hook, PinApi, Settings, Service}
use dag.Service.Config.{
  Config, new_dsync, default_config, default_dag_final_check, settings_of, service_of,
}
use dag.Service.Serving.{Serving, listening, endpoints_of, not_a_remote, start_remote}
use dag.Plugin.{DsyncPlugin, Platform, config_path_of, default_plugin, new_dsync_plugin}

-- The option that Start passes to New: `check` is pushPreCheck, and `api` capi.Pin().
abbrev with_plugin : Hook → PinApi → Config → Config
with_plugin check api cfg = record cfg { push_pre_check = some check; pin_api = some api }

-- `lng` is the error of NewLocalNodeGetter. No libp2p host is set.
abbrev local_nodes : Option Error → Result (Unit {0})
local_nodes none = ok tt
local_nodes (some e) = err e

unfoldable pub start :
    Option Error → Hook → PinApi → DsyncPlugin → Result ((Settings × Service) × List Serving)
unfolding new_dsync start_remote
start lng check api p = do
  _nodes ← local_nodes lng
  host ← new_dsync (with_plugin check api ∷ [])
  serving ← start_remote (endpoints_of p.http_remote_addr false)
  ok (host, serving)

-- Start of a plugin, where NewLocalNodeGetter returns no error. If the plugin has no HTTPRemoteAddr,
-- it is the error that the Dsync is no remote. Otherwise the Dsync checks transfers with
-- pushPreCheck, can pin, allows no removal, has no session, and serves at this address only.
pub start_lem :
    (check : Hook) (api : PinApi) (p : DsyncPlugin)
    → ((p.http_remote_addr ≡ []) × (start none check api p ≡ err not_a_remote))
      ⊎ ((c : Settings) × (ds : Service) × (p.http_remote_addr ≢ [])
          × (start none check api p ≡ ok ((c, ds), listening p.http_remote_addr ∷ []))
          × (c.pre_check ≡ check)
          × (c.pin ≡ some api)
          × (c.allow_removes ≡ false)
          × (ds.session_pool ≡ []))
unfolding start new_dsync start_remote
start_lem check api p = elim (List-cases p.http_remote_addr) [
  | inl e ↦ inl (e, rw (e, start) refl)
  | inr (b, bs, e) ↦ inr (
    settings_of (with_plugin check api default_config) check default_dag_final_check,
    service_of (with_plugin check api default_config),
    (λ q. cc (sym e ∙ q)),
    rw (e, start) refl,
    refl,
    refl,
    refl,
    refl,
  )
]

-- A plugin as NewDsyncPlugin makes it, where the path of the repository is known, starts, and serves
-- at ":2503".
pub new_dsync_plugin-starts :
    (pf : Platform) (path : Str) (check : Hook) (api : PinApi)
    → config_path_of pf ≡ ok path
    → (p : DsyncPlugin) × (host : Settings × Service) × (new_dsync_plugin pf ≡ ok p)
      × (start none check api p ≡ ok (host, listening (bytes ":2503") ∷ []))
unfolding new_dsync_plugin start new_dsync start_remote
new_dsync_plugin-starts pf path check api known = (
  default_plugin path,
  (
    settings_of (with_plugin check api default_config) check default_dag_final_check,
    service_of (with_plugin check api default_config),
  ),
  rw known refl,
  refl,
)
