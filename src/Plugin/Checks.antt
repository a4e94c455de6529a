-- ===== src/Plugin/Checks.antt =====
-- dsync/dsync_ipfs_plugin/plugin.go: pushPreCheck at the receiving side of a Dsync.
use dag.Base.{
  ◌≡◌, ◌≢◌, ◌⊎◌, inl, inr, refl, sym, ◌∙◌, Str, Str_discrete, bytes, Bool, false, none, some, Error,
  ok, err, panic, Dict, get_elem?,
}
use dag.Ipld.{Ipld, NodeGetter}
use dag.Manifest.{Manifest}
use dag.Info.{Info}
use dag.Missing.{missing}
use dag.Session.{Session}
use dag.Service.{Settings, Service, PinApi, new_receive_session}
use dag.Service.Begin.{new_receive_session_lem}
use dag.Plugin.{DsyncPlugin, rejected, push_pre_check}

push_pre_check-passes :
    (p : DsyncPlugin) (info : Info) (meta : Dict Str Str) (m : Manifest) (root : Str)
    → info.manifest ≡ some m
    → get_elem? m.nodes 0 ≡ some root
    → root ≢ bytes "BadHash"
    → push_pre_check p info meta ≡ ok none
unfolding push_pre_check
push_pre_check-passes p info meta m root has rooted other =
    rw (has, push_pre_check)
      (rw rooted
        (elim (Str_discrete root (bytes "BadHash"))
          as (λ d. ok (elim d [ yes _ ↦ some rejected | no _ ↦ none ]) ≡ ok none) [
            | yes same ↦ absurd (other same)
            | no _ ↦ refl
          ]))

-- The service of a plugin, which checks transfers with pushPreCheck and can pin, is asked for a
-- session, for an info whose manifest has a first node other than "BadHash". Missing does not panic.
-- Then NewReceiveSession returns a session, or the error of Missing where not all blocks are
-- required, whatever the allow list and the maximum size of the plugin are.
pub pre_check_lets_all :
    (lib : Ipld) (ng : NodeGetter lib) (p : DsyncPlugin) (c : Settings) (api : PinApi) (sid : Str)
    (m : Manifest) (root : Str) (info : Info) (pin : Bool) (meta : Dict Str Str) (ds : Service)
    → push_pre_check p info meta ≡ ok (c.pre_check info meta)
    → c.pin ≡ some api
    → info.manifest ≡ some m
    → get_elem? m.nodes 0 ≡ some root
    → root ≢ bytes "BadHash"
    → missing lib ng m ≢ panic
    → ((sess : Session) × (ds' : Service) × (new_receive_session lib ng c sid info pin meta ds
          ≡ ok (ds', sess)))
      ⊎ ((e : Error) × (new_receive_session lib ng c sid info pin meta ds ≡ err e)
          × (c.require_all_blocks ≡ false)
          × (missing lib ng m ≡ err e))
pre_check_lets_all lib ng p c api sid m root info pin meta ds checks pins has rooted other calm =
    let passed : c.pre_check info meta ≡ none =
      cc (sym checks ∙ push_pre_check-passes p info meta m root has rooted other) in
    elim (new_receive_session_lem lib ng c sid m root rooted info has pin meta ds calm) [
      | inl (sess, ds', ran, _, _, _, _, _) ↦ inl (sess, ds', ran)
      | inr (e, ran, inl refused) ↦ absurd (cc (sym passed ∙ refused))
      | inr (e, ran, inr (inl (lacks, _))) ↦ absurd (cc (rw pins at lacks))
      | inr (e, ran, inr (inr (some_only, lost))) ↦ inr (e, ran, some_only, lost)
    ]
