-- ===== src/Plugin/Saved.antt =====
-- dsync/dsync_ipfs_plugin/plugin.go: what WriteConfig writes is what LoadConfig reads, and the allow
-- list over many requests.
use dag.Base.{
  ◌≡◌, ◌≢◌, ◌↔◌, ◌⊎◌, inl, inr, refl, ap, subst, Str, Str_discrete, bytes, List, [], ◌∷◌, Option,
  none, some, Error, ok, lookup, arith,
}
use dag.Http.Server.{Request}
use dag.Plugin.{
  DsyncPlugin, Platform, Daemon, contents, config_path_of, load_config, written, write_config,
  allow_addr, deny_addr,
}
use dag.Plugin.Commands.{acl_handler, changed}

-- What package os says of a file that WriteFile has written.
abbrev pub Keeping : Platform → Type 0
Keeping pf =
    (path raw : Str) (before after : pf.Files)
    → pf.write_file path raw before ≡ (after, none)
    → pf.open_file path after ≡ contents raw

-- The codec gives the exported fields of a plugin back.
abbrev pub Coded : Platform → DsyncPlugin → Type 0
Coded pf p =
    (raw : Str) → pf.marshal_indent p ≡ inr raw → pf.decode raw ≡ ok (record p { config_path = [] })

-- A new process reads the configuration of this one.
abbrev pub Saved : (pf : Platform) → Daemon pf → Type 0
Saved pf d =
    (q : DsyncPlugin) → load_config pf (record { plugin = q; files = d.files }) ≡ ok d.plugin

module _ (pf : Platform) (unset : pf.env ≡ []) (keeping : Keeping pf) where
  written-Saved :
      (d d' : Daemon pf) (raw : Str)
      → config_path_of pf ≡ ok d.plugin.config_path
      → pf.decode raw ≡ ok (record d.plugin { config_path = [] })
      → written pf d (inr raw) ≡ (d', none)
      → (d'.plugin ≡ d.plugin) × Saved pf d'
  unfolding load_config
  written-Saved d d' raw located decoded ran =
      let result = pf.write_file d.plugin.config_path raw d.files in
      let failed : result.1 ≡ none = ap (λ (x : Daemon pf × Option Error). x.1) ran in
      let kept : record d { files = result.0 } ≡ d' =
        ap (λ (x : Daemon pf × Option Error). x.0) ran in
      let there =
        keeping d.plugin.config_path raw d.files result.0 (ap (λ e. (result.0, e)) failed) in
      subst (λ (x : Daemon pf). (x.plugin ≡ d.plugin) × Saved pf x) kept
        (refl, λ q. rw unset (rw located (rw there (rw decoded refl))))

  encoded-Saved :
      (d d' : Daemon pf) (code : Error ⊎ Str)
      → config_path_of pf ≡ ok d.plugin.config_path
      → Coded pf d.plugin
      → pf.marshal_indent d.plugin ≡ code
      → written pf d code ≡ (d', none)
      → (d'.plugin ≡ d.plugin) × Saved pf d'
  encoded-Saved d d' (inl e) located coded code ran =
      absurd (cc (ap (λ (x : Daemon pf × Option Error). x.1) ran))
  encoded-Saved d d' (inr raw) located coded code ran =
      written-Saved d d' raw located (coded raw code) ran

  -- DSYNC_CONFIG is not set, the file is where the plugin keeps its path, the codec gives its exported
  -- fields back, and a file that was written reads as written. Then WriteConfig without an error
  -- leaves the plugin as it is, and LoadConfig of any process then returns that plugin.
  pub write_config-Saved :
      (d d' : Daemon pf)
      → config_path_of pf ≡ ok d.plugin.config_path
      → Coded pf d.plugin
      → write_config pf d ≡ (d', none)
      → (d'.plugin ≡ d.plugin) × Saved pf d'
  unfolding write_config
  write_config-Saved d d' located coded ran =
      encoded-Saved d d' (pf.marshal_indent d.plugin) located coded refl ran

-- A request of the command line for the allow list.
pub data AclCall : Type 0 where
  allow : Str → AclCall
  deny : Str → AclCall

abbrev request : Str → Str → Request
request method addr = record {
  method = method;
  query = (bytes "addr", addr) ∷ [];
  content_type = [];
  body = ok [];
}

abbrev pub request_of : AclCall → Request
request_of (allow addr) = request (bytes "POST") addr
request_of (deny addr) = request (bytes "DELETE") addr

abbrev pub subject : AclCall → Str
subject (allow addr) = addr
subject (deny addr) = addr

-- The daemon after the requests, and that each was answered with the code 200.
abbrev pub after : (pf : Platform) → List AclCall → Daemon pf → Daemon pf
after pf [] d = d
after pf (x ∷ calls) d = after pf calls (acl_handler pf (request_of x) d).1

abbrev pub Served : (pf : Platform) → List AclCall → Daemon pf → Type 0
Served pf [] d = Unit
Served pf (x ∷ calls) d =
    ((acl_handler pf (request_of x) d).0.code ≡ 200)
    × Served pf calls (acl_handler pf (request_of x) d).1

-- What a set of addresses becomes by the requests, in their order.
abbrev pub Allowed : List AclCall → (Str → Type 0) → Str → Type 0
Allowed [] In a = In a
Allowed (allow addr ∷ calls) In a = Allowed calls (λ x. (x ≡ addr) ⊎ In x) a
Allowed (deny addr ∷ calls) In a = Allowed calls (λ x. (x ≢ addr) × In x) a

pub Allowed-iff :
    (calls : List AclCall) (P Q : Str → Type 0) (a : Str)
    → ((x : Str) → P x ↔ Q x)
    → Allowed calls P a ↔ Allowed calls Q a
Allowed-iff [] P Q a same = same a
Allowed-iff (allow addr ∷ calls) P Q a same =
    Allowed-iff calls (λ x. (x ≡ addr) ⊎ P x) (λ x. (x ≡ addr) ⊎ Q x) a
      (λ x. (
        λ h. elim h [ inl e ↦ inl e | inr p ↦ inr ((same x).0 p) ],
        λ h. elim h [ inl e ↦ inl e | inr q ↦ inr ((same x).1 q) ],
      ))
Allowed-iff (deny addr ∷ calls) P Q a same =
    Allowed-iff calls (λ x. (x ≢ addr) × P x) (λ x. (x ≢ addr) × Q x) a
      (λ x. (λ (e, p). (e, (same x).0 p), λ (e, q). (e, (same x).1 q)))

module _ (pf : Platform) where
  pub served_call :
      (x : Daemon pf × Option Error)
      → (changed pf x).0.code ≡ 200
      → (x ≡ (x.0, none)) × ((changed pf x).1 ≡ x.0)
  served_call (d, none) e = (refl, refl)
  served_call (d, some why) e = absurd (omega (arith, e))

  pub acl_handler-allow :
      (addr : Str) (d : Daemon pf)
      → acl_handler pf (request_of (allow addr)) d ≡ changed pf (allow_addr pf addr d)
  unfolding acl_handler lookup Str_discrete
  acl_handler-allow addr d = refl

  pub acl_handler-deny :
      (addr : Str) (d : Daemon pf)
      → acl_handler pf (request_of (deny addr)) d ≡ changed pf (deny_addr pf addr d)
  unfolding acl_handler lookup Str_discrete
  acl_handler-deny addr d = refl
