-- ===== src/Service/Begin.antt =====
-- How a transfer begins.
use dag.Base.{
  ◌≡◌, ◌≢◌, refl, inl, inr, ◌⊎◌, Str, Str_discrete, Bool, true, false, Bool-cases, not, none, some,
  Option-cases, Error, ok, err, panic, Result-cases, Dict, lookup-insert, get_elem?, arith,
  pin_not_supported,
}
use dag.Ipld.{Ipld, NodeGetter}
use dag.Manifest.{Manifest}
use dag.Info.{Info}
use dag.Missing.{missing}
use dag.Completion.{new_completion}
use dag.Session.{Session, new_session}
use dag.Service.{Settings, Service, lacks_pin, enter_session, new_receive_session}
use dag.Service.Transfer.{Waiting}

module _ (lib : Ipld) (ng : NodeGetter lib) (c : Settings) (sid : Str) (m : Manifest) (root : Str)
    (rooted : get_elem? m.nodes 0 ≡ some root) (info : Info) (has : info.manifest ≡ some m)
    (pin : Bool) (meta : Dict Str Str) (ds : Service) where
  -- The blocks that the other side is asked for.
  abbrev pub Asked : Manifest → Type 0
  Asked d =
      ((c.require_all_blocks ≡ true) × (d ≡ m))
      ⊎ ((c.require_all_blocks ≡ false) × (missing lib ng m ≡ ok d))

  abbrev began : Manifest → Session
  began d = record {
    id = sid;
    pin = pin;
    meta = meta;
    info = info;
    diff = d;
    prog = new_completion m d;
    fin = false;
  }

  new_session-began :
      missing lib ng m ≢ panic
      → ((d : Manifest) × (new_session lib ng sid info (not c.require_all_blocks) pin meta
            ≡ ok (began d))
          × Asked d)
        ⊎ ((e : Error) × (new_session lib ng sid info (not c.require_all_blocks) pin meta ≡ err e)
            × (c.require_all_blocks ≡ false)
            × (missing lib ng m ≡ err e))
  unfolding new_session
  new_session-began calm = elim (Bool-cases c.require_all_blocks) [
    | inl all ↦ inl (m, rw (has, new_session) (rw all refl), inl (all, refl))
    | inr some_only ↦ elim (Result-cases (missing lib ng m)) [
      | inl (d, ran) ↦
          inl (d, rw (has, new_session) (rw some_only (rw ran refl)), inr (some_only, ran))
      | inr (inl (e, ran)) ↦
          inr (e, rw (has, new_session) (rw some_only (rw ran refl)), some_only, ran)
      | inr (inr ran) ↦ absurd (calm ran)
    ]
  ]

  entered-Waiting :
      (d : Manifest) → Waiting lib c sid m root rooted (began d) (enter_session (began d) ds)
  entered-Waiting d = record {
    pooled = ground (arith, lookup-insert Str_discrete sid sid (began d) ds.session_pool);
    named = refl;
    has = has;
    unfinished = refl;
    cancel = ground (arith, lookup-insert Str_discrete sid sid tt ds.session_cancels);
  }

  -- NewReceiveSession for an info whose manifest has a first node, where Missing does not panic. It
  -- returns a session that is in the pool under its name with a cancel function, not finalised, with
  -- the progress that NewCompletion gives for the blocks asked for, which are those that Missing
  -- lists, or all of them if all are required; then the precheck passed, and pinning was not asked
  -- for or is supported. Or else it returns the error of the precheck, the error about pinning, if
  -- that is asked for and not supported, or the error of Missing, if not all blocks are required.
  pub new_receive_session_lem :
      missing lib ng m ≢ panic
      → ((sess : Session) × (ds' : Service) × (new_receive_session lib ng c sid info pin meta ds
            ≡ ok (ds', sess))
          × (c.pre_check info meta ≡ none)
          × (lacks_pin c.pin pin ≡ false)
          × Waiting lib c sid m root rooted sess ds'
          × (sess.prog ≡ new_completion m sess.diff)
          × Asked sess.diff)
        ⊎ ((e : Error) × (new_receive_session lib ng c sid info pin meta ds ≡ err e)
            × ((c.pre_check info meta ≡ some e)
                ⊎ (((lacks_pin c.pin pin ≡ true) × (e ≡ pin_not_supported))
                    ⊎ ((c.require_all_blocks ≡ false) × (missing lib ng m ≡ err e)))))
  unfolding new_receive_session
  new_receive_session_lem calm = elim (Option-cases (c.pre_check info meta)) [
    | inr (e, refused) ↦ inr (e, rw (refused, new_receive_session) refl, inl refused)
    | inl passed ↦ elim (Bool-cases (lacks_pin c.pin pin)) [
      | inl lacks ↦ inr (
        pin_not_supported,
        rw (passed, new_receive_session) (rw lacks refl),
        inr (inl (lacks, refl)),
      )
      | inr pins ↦ elim (new_session-began calm) [
        | inl (d, ran, asked) ↦ inl (
          began d,
          enter_session (began d) ds,
          rw (passed, new_receive_session) (rw pins (rw ran refl)),
          passed,
          pins,
          entered-Waiting d,
          refl,
          asked,
        )
        | inr (e, ran, some_only, lost) ↦ inr (
          e,
          rw (passed, new_receive_session) (rw pins (rw ran refl)),
          inr (inr (some_only, lost)),
        )
      ]
    ]
  ]
