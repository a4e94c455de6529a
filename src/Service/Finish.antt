-- ===== src/Service/Finish.antt =====
-- dsync/dsync.go: what finalizeReceive leaves, where nothing refuses the transfer.
use dag.Base.{
  ◌≡◌, refl, ap, inl, inr, Str, Str_discrete, Bool, true, false, Bool-cases, List, ◌∷◌, Option,
  none, some, Option-cases, ok, lookup, delete, get_elem?, arith,
}
use dag.Manifest.{Manifest}
use dag.Info.{Info}
use dag.Store.{Infos, put_info}
use dag.Session.{Session}
use dag.Service.{
  Settings, Service, PinApi, Hook, root_of, put, store_info, pin_and_conclude, add_pin, pin_root,
  release, conclude, finalize_receive,
}

module _ (c : Settings) (sid : Str) (m : Manifest) (root : Str)
    (rooted : get_elem? m.nodes 0 ≡ some root) where
  -- The checks let the transfer pass, the info store takes its info, and pinning works.
  pub record Agrees (sess : Session) : Type 0 where
    pub checked : c.final_check sess.info sess.meta ≡ none
    pub stores : c.put_error root sess.info ≡ none
    pub pins : sess.pin ≡ true → (api : PinApi) × (c.pin ≡ some api) × (api.add root ≡ none)
    pub notified : (hook : Hook) → c.on_complete_hook ≡ some hook → hook sess.info sess.meta ≡ none

  abbrev kept_store : Info → Option Infos → Option Infos
  kept_store info none = none
  kept_store info (some infos) = some (put_info root info infos)

  abbrev kept_pins : Bool → List Str → List Str
  kept_pins true pinned = root ∷ pinned
  kept_pins false pinned = pinned

  abbrev told : Option Hook → Info → List Info → List Info
  told none info completed = completed
  told (some hook) info completed = info ∷ completed

  -- What the end of a transfer leaves: the session is gone and its context cancelled, the info is in
  -- the store, if there is one, the root is pinned, if the session asked for it, and the hook for
  -- completed transfers was called, if there is one.
  abbrev pub finished : Session → Service → Service
  finished sess ds = record {
    session_pool = delete Str_discrete sid ds.session_pool;
    session_cancels = ds.session_cancels;
    cancelled = sid ∷ ds.cancelled;
    info_store = kept_store sess.info ds.info_store;
    pinned = kept_pins sess.pin ds.pinned;
    completed = told c.on_complete_hook sess.info ds.completed;
  }

  root_of-first : (sess : Session) → sess.info.manifest ≡ some m → root_of sess.info ≡ ok root
  root_of-first sess has = rw has (rw rooted refl)

  store_info-kept :
      (sess : Session) (ds : Service)
      → sess.info.manifest ≡ some m
      → Agrees sess
      → store_info c sess ds
        ≡ ok (record ds { info_store = kept_store sess.info ds.info_store }, none)
  unfolding store_info put
  store_info-kept sess ds has agrees = elim (Option-cases ds.info_store) [
    | inl e ↦ let same = ap (λ x. record ds { info_store = x }) e in ground arith
    | inr (infos, e) ↦ rw e (rw (root_of-first sess has) (rw (agrees.stores, put) refl))
  ]

  pin_root-kept :
      (sess : Session) (ds : Service)
      → sess.info.manifest ≡ some m
      → Agrees sess
      → pin_root c sess ds ≡ ok (record ds { pinned = kept_pins sess.pin ds.pinned }, none)
  unfolding pin_root add_pin
  pin_root-kept sess ds has agrees = elim (Bool-cases sess.pin) [
    | inl e ↦
        let (api, with_api, added) = agrees.pins e in
        rw (e, pin_root) (rw with_api (rw (root_of-first sess has) (rw added refl)))
    | inr e ↦ rw (e, pin_root) refl
  ]

  conclude-told :
      (sess : Session) (ds : Service)
      → Agrees sess
      → sess.id ≡ sid
      → lookup Str_discrete sid ds.session_cancels ≡ some tt
      → conclude c sess ds
        ≡ ok (
          record ds {
            session_pool = delete Str_discrete sid ds.session_pool;
            cancelled = sid ∷ ds.cancelled;
            completed = told c.on_complete_hook sess.info ds.completed;
          },
          none,
        )
  unfolding conclude release
  conclude-told sess ds agrees named cancel = elim (Option-cases c.on_complete_hook) [
    | inl e ↦ rw (e, conclude) (rw named (rw cancel refl))
    | inr (hook, e) ↦ rw (e, conclude) (rw named (rw cancel (rw (agrees.notified hook e) refl)))
  ]

  pub finalize_receive-finished :
      (sess : Session) (ds : Service)
      → Agrees sess
      → sess.id ≡ sid
      → sess.info.manifest ≡ some m
      → lookup Str_discrete sid ds.session_cancels ≡ some tt
      → finalize_receive c sess ds ≡ ok (finished sess ds, none)
  unfolding finalize_receive pin_and_conclude
  finalize_receive-finished sess ds agrees named has cancel =
      rw (agrees.checked, finalize_receive)
        (rw (store_info-kept sess ds has agrees) (
          rw
            (pin_root-kept sess (record ds { info_store = kept_store sess.info ds.info_store }) has
              agrees)
            (conclude-told sess _ agrees named cancel)))
