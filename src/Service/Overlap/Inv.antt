-- ===== src/Service/Overlap/Inv.antt =====
-- What holds in each state of a session whose calls overlap.
use dag.Base.{
  ℕ, suc, ◌+◌, ◌<◌, ◌≡◌, ◌≢◌, ◌⊎◌, inl, inr, refl, sym, ap, ◌∙◌, Str, true, false, List, [], Memᴰ,
  Memᴰ-concat, some, Result, ok, get_elem?, arith, total, total-Pick, Pick, subst,
}
use dag.Ipld.{Ipld}
use dag.Manifest.{Manifest}
use dag.Completion.{mark, new_completion, is_complete}
use dag.Completion.Laws.{mark_all, mark_all-concat, transfer_complete}
use dag.Completion.Taken.{AllTaken, AllTaken-concat}
use dag.Session.{Session, Response, status_ok, receive}
use dag.Service.{Settings, Service, is_ok}
use dag.Service.Finish.{Agrees, finished}
use dag.Service.Transfer.{Waiting}
use dag.Service.Overlap.{
  Call, Receiving, Step, come, come_late, take, refuse, find_complete, find_incomplete, lock_first,
  lock_later, finalize,
}
use dag.Service.Overlap.Calls.{
  noticing, convinced, closing, IsHonest, IsHonestCall, took, turned, receive-Received,
}

module _ (lib : Ipld) (c : Settings) (sid : Str) (Puts : Str → Result Str → Type 0) (m : Manifest)
    (root : Str) (rooted : get_elem? m.nodes 0 ≡ some root) (sess : Session) (ds : Service)
    (w : Waiting lib c sid m root rooted sess ds) (agrees : Agrees c sid m root rooted sess)
    (begun : sess.prog ≡ new_completion m sess.diff) where
  abbrev Steps : Receiving → Receiving → Type 0
  Steps = Step lib c sid Puts

  -- Only the progress and the flag of the session change.
  abbrev pub now : Receiving → Session
  now s = record sess { prog = s.sess.prog; fin = s.sess.fin }

  pub record Inv (s : Receiving) : Type 0 where
    pub same : s.sess ≡ now s
    pub marked : s.sess.prog ≡ mark_all s.taken m (new_completion m sess.diff)
    pub put : (id : Str) → Memᴰ id s.taken → Puts id (ok id)
    pub begins : s.sess.fin ≡ false → total closing s.calls + s.finals ≡ 0
    pub ends : s.sess.fin ≡ true → total closing s.calls + s.finals ≡ 1
    pub sound : (0 < total convinced s.calls + s.finals) → AllTaken m sess.diff s.taken
    pub noticed :
        is_complete s.sess.prog ≡ true
        → s.taken ≡ [] ⊎ ((s.sess.fin ≡ true) ⊎ (0 < total noticing s.calls))
    pub waits : s.finals ≡ 0 → s.ds ≡ ds
    pub served : 0 < s.finals → s.ds ≡ finished c sid m root rooted sess ds
    pub honest_calls : (x : Call) → Memᴰ x s.calls → IsHonestCall s.taken x
    pub honest : (res : Response) → Memᴰ res s.answers → IsHonest s.taken res

  has_manifest : (s : Receiving) → Inv s → s.sess.info.manifest ≡ some m
  has_manifest s inv = ap (λ (x : Session). x.info.manifest) inv.same ∙ w.has

  pub took_at :
      {res : Response} {sess' : Session} (hash : Str) (stored : Result Str) (s : Receiving)
      → Inv s
      → receive hash stored s.sess ≡ ok (res, sess')
      → is_ok res.status ≡ true
      → (stored ≡ ok hash)
        × (res.hash ≡ hash)
        × (sess' ≡ record s.sess { prog = mark hash m s.sess.prog })
  took_at {res} {sess'} hash stored s inv ran =
      took (receive-Received m hash stored res s.sess sess' (has_manifest s inv) ran)

  pub turned_at :
      {res : Response} {sess' : Session} (hash : Str) (stored : Result Str) (s : Receiving)
      → Inv s
      → receive hash stored s.sess ≡ ok (res, sess')
      → is_ok res.status ≡ false
      → (sess' ≡ s.sess) × (res.status ≢ status_ok)
  turned_at {res} {sess'} hash stored s inv ran =
      turned (receive-Received m hash stored res s.sess sess' (has_manifest s inv) ran)

  pub Step-same : {s t : Receiving} → Steps s t → Inv s → t.sess ≡ now t
  Step-same {s} (take {hash} p k ran fine) inv =
      let (_, _, e) = took_at _ _ s inv ran fine in
      rw e (ap (λ (x : Session). record x { prog = mark hash m s.sess.prog }) inv.same)
  Step-same {s} (refuse p k ran bad) inv = let (e, _) = turned_at _ _ s inv ran bad in rw e inv.same
  Step-same {s} (lock_first p e) inv = ap (λ (x : Session). record x { fin = true }) inv.same
  Step-same (come hash e) inv = inv.same
  Step-same (come_late hash e) inv = inv.same
  Step-same (find_complete p e) inv = inv.same
  Step-same (find_incomplete p e) inv = inv.same
  Step-same (lock_later p e) inv = inv.same
  Step-same (finalize p e) inv = inv.same

  pub Step-marked :
      {s t : Receiving}
      → Steps s t
      → Inv s
      → t.sess.prog ≡ mark_all t.taken m (new_completion m sess.diff)
  Step-marked {s} (take {hash} p k ran fine) inv =
      let (_, _, e) = took_at _ _ s inv ran fine in
      ap (λ (x : Session). x.prog) e
      ∙ ap (mark hash m) inv.marked
      ∙ sym (mark_all-concat s.taken hash m (new_completion m sess.diff))
  Step-marked {s} (refuse p k ran bad) inv =
      let (e, _) = turned_at _ _ s inv ran bad in ap (λ (x : Session). x.prog) e ∙ inv.marked
  Step-marked (lock_first p e) inv = inv.marked
  Step-marked (come hash e) inv = inv.marked
  Step-marked (come_late hash e) inv = inv.marked
  Step-marked (find_complete p e) inv = inv.marked
  Step-marked (find_incomplete p e) inv = inv.marked
  Step-marked (lock_later p e) inv = inv.marked
  Step-marked (finalize p e) inv = inv.marked

  pub Step-put :
      {s t : Receiving} → Steps s t → Inv s → (id : Str) → Memᴰ id t.taken → Puts id (ok id)
  Step-put {s} (take {hash} p k ran fine) inv id there =
      elim ((Memᴰ-concat id hash s.taken).0 there) [
        | inl old ↦ inv.put id old
        | inr new ↦
            let (stored_as, _, _) = took_at _ _ s inv ran fine in
            let kept : Puts hash (ok hash) = subst (Puts hash) stored_as k in rw new kept
      ]
  Step-put (refuse p k ran bad) inv id there = inv.put id there
  Step-put (lock_first p e) inv id there = inv.put id there
  Step-put (come hash e) inv id there = inv.put id there
  Step-put (come_late hash e) inv id there = inv.put id there
  Step-put (find_complete p e) inv id there = inv.put id there
  Step-put (find_incomplete p e) inv id there = inv.put id there
  Step-put (lock_later p e) inv id there = inv.put id there
  Step-put (finalize p e) inv id there = inv.put id there

  -- How often the session is being finalised, or was.
  abbrev closings : Receiving → ℕ
  closings s = total closing s.calls + s.finals

  pub Step-closings :
      {s t : Receiving}
      → Steps s t
      → Inv s
      → ((closings t ≡ closings s) × (t.sess.fin ≡ s.sess.fin))
        ⊎ ((closings t ≡ suc (closings s)) × (s.sess.fin ≡ false) × (t.sess.fin ≡ true))
  Step-closings {s} (take p k ran fine) inv =
      let (_, _, e) = took_at _ _ s inv ran fine in
      inl (omega (arith, total-Pick closing p), ap (λ (x : Session). x.fin) e)
  Step-closings {s} (refuse p k ran bad) inv =
      let (e, _) = turned_at _ _ s inv ran bad in
      inl (omega (arith, total-Pick closing p), ap (λ (x : Session). x.fin) e)
  Step-closings (lock_first p e) inv = inr (omega (arith, total-Pick closing p), e, refl)
  Step-closings (come hash e) inv = inl (omega arith, refl)
  Step-closings (come_late hash e) inv = inl (refl, refl)
  Step-closings (find_complete p e) inv = inl (omega (arith, total-Pick closing p), refl)
  Step-closings (find_incomplete p e) inv = inl (omega (arith, total-Pick closing p), refl)
  Step-closings (lock_later p e) inv = inl (omega (arith, total-Pick closing p), refl)
  Step-closings (finalize p e) inv = inl (omega (arith, total-Pick closing p), refl)

  pub Step-begins : {s t : Receiving} → Steps s t → Inv s → t.sess.fin ≡ false → closings t ≡ 0
  Step-begins st inv off = elim (Step-closings st inv) [
    | inl (same, flag) ↦ same ∙ inv.begins (sym flag ∙ off)
    | inr (more, was, is) ↦ absurd (cc (sym is ∙ off))
  ]

  pub Step-ends : {s t : Receiving} → Steps s t → Inv s → t.sess.fin ≡ true → closings t ≡ 1
  Step-ends st inv on = elim (Step-closings st inv) [
    | inl (same, flag) ↦ same ∙ inv.ends (sym flag ∙ on)
    | inr (more, was, is) ↦ omega (arith, more, inv.begins was)
  ]

  pub Step-sound :
      {s t : Receiving}
      → Steps s t
      → Inv s
      → 0 < total convinced t.calls + t.finals
      → AllTaken m sess.diff t.taken
  Step-sound {s} (take {hash} p k ran fine) inv some_one =
      AllTaken-concat m sess.diff s.taken hash
        (inv.sound (omega (arith, some_one, total-Pick convinced p)))
  Step-sound (refuse p k ran bad) inv some_one =
      inv.sound (omega (arith, some_one, total-Pick convinced p))
  Step-sound {s} (find_complete p e) inv some_one =
      (transfer_complete m sess.diff s.taken).0 (rw (← inv.marked) e)
  Step-sound (find_incomplete p e) inv some_one =
      inv.sound (omega (arith, some_one, total-Pick convinced p))
  Step-sound (lock_first p e) inv some_one =
      inv.sound (omega (arith, some_one, total-Pick convinced p))
  Step-sound (lock_later p e) inv some_one =
      inv.sound (omega (arith, some_one, total-Pick convinced p))
  Step-sound (finalize p e) inv some_one =
      inv.sound (omega (arith, some_one, total-Pick convinced p))
  Step-sound (come hash e) inv some_one = inv.sound (omega (arith, some_one))
  Step-sound (come_late hash e) inv some_one = inv.sound some_one

  abbrev Noticed : Receiving → Type 0
  Noticed s =
      is_complete s.sess.prog ≡ true
      → s.taken ≡ [] ⊎ ((s.sess.fin ≡ true) ⊎ (0 < total noticing s.calls))

  -- Where one call goes on that does not look any more.
  still_Noticed :
      {x : Call} {rest : List Call} (s : Receiving)
      → Pick x s.calls rest
      → noticing x ≡ 0
      → Noticed s
      → Noticed (record s { calls = rest })
  still_Noticed s p blind h full = elim (h full) [
    | inl none_yet ↦ inl none_yet
    | inr (inl on) ↦ inr (inl on)
    | inr (inr some_one) ↦ inr (inr (omega (arith, some_one, blind, total-Pick noticing p)))
  ]

  pub Step-Noticed : {s t : Receiving} → Steps s t → Inv s → Noticed t
  Step-Noticed (take p k ran fine) inv full = inr (inr (omega arith))
  Step-Noticed {s} (refuse p k ran bad) inv full =
      let (e, _) = turned_at _ _ s inv ran bad in
      rw e (still_Noticed s p refl inv.noticed (rw e at full))
  Step-Noticed (find_complete p e) inv full = inr (inr (omega arith))
  Step-Noticed (find_incomplete p e) inv full = absurd (cc (sym e ∙ full))
  Step-Noticed (lock_first p e) inv full = inr (inl refl)
  Step-Noticed (lock_later p e) inv full = inr (inl e)
  Step-Noticed {s} (finalize p e) inv full = still_Noticed s p refl inv.noticed full
  Step-Noticed (come hash e) inv full = elim (inv.noticed full) [
    | inl none_yet ↦ inl none_yet
    | inr (inl on) ↦ inr (inl on)
    | inr (inr some_one) ↦ inr (inr (omega (arith, some_one)))
  ]
  Step-Noticed (come_late hash e) inv full = inv.noticed full
