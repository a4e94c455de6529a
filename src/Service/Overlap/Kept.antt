-- ===== src/Service/Overlap/Kept.antt =====
-- dsync/dsync.go: what the answers of overlapping calls say, what they make of the service, and that
-- a run keeps all of it.
use mathlib.Core.List.Memᴰ
use dag.Base.{
  ℕ, ◌<◌, ◌≡◌, inl, inr, refl, sym, ◌∙◌, Str, List, ◌∷◌, Memᴰ, Memᴰ-concat, Option, none, some,
  Result, Error, ok, get_elem?, arith, total-Pick, Pick, Pick-Memᴰ, Pick-rest, Bool-cases,
}
use dag.Ipld.{Ipld}
use dag.Manifest.{Manifest}
use dag.Completion.{new_completion}
use dag.Completion.Laws.{mark_all}
use dag.Session.{Session, Response}
use dag.Service.{Settings, Service, finalize_receive}
use dag.Service.Finish.{Agrees, finished, finalize_receive-finished}
use dag.Service.Transfer.{Waiting}
use dag.Service.Overlap.{
  Call, checking, locking, finalizing, Receiving, started, unknown_sid, Step, come, come_late, take,
  refuse, find_complete, find_incomplete, lock_first, lock_later, finalize, Run, still, onward,
}
use dag.Service.Overlap.Calls.{
  closing, IsHonest, IsHonestCall, IsHonest-concat, IsHonestCall-concat,
}
use dag.Service.Overlap.Inv.{
  Inv, now, took_at, turned_at, Step-same, Step-marked, Step-put, Step-begins, Step-ends,
  Step-sound, Step-Noticed,
}

module _ (lib : Ipld) (c : Settings) (sid : Str) (Puts : Str → Result Str → Type 0) (m : Manifest)
    (root : Str) (rooted : get_elem? m.nodes 0 ≡ some root) (sess : Session) (ds : Service)
    (w : Waiting lib c sid m root rooted sess ds) (agrees : Agrees c sid m root rooted sess)
    (begun : sess.prog ≡ new_completion m sess.diff) where
  abbrev Steps : Receiving → Receiving → Type 0
  Steps = Step lib c sid Puts

  abbrev Invs : Receiving → Type 0
  Invs = Inv lib c sid Puts m root rooted sess ds w agrees begun

  -- The call that finalises is the first to do so.
  first_one :
      {res : Response} {rest : List Call} (s : Receiving)
      → Invs s
      → Pick (finalizing res) s.calls rest
      → s.finals ≡ 0
  first_one s inv p = elim (Bool-cases s.sess.fin) [
    | inl on ↦ omega (arith, inv.ends on, total-Pick closing p)
    | inr off ↦ omega (arith, inv.begins off, total-Pick closing p)
  ]

  pub finalizes :
      {res : Response} {rest : List Call} (s : Receiving)
      → Invs s
      → Pick (finalizing res) s.calls rest
      → finalize_receive c s.sess s.ds ≡ ok (finished c sid m root rooted sess ds, none)
  finalizes s inv p =
      let seen = now lib c sid Puts m root rooted sess ds w agrees begun s in
      let agrees' : Agrees c sid m root rooted seen = record {
        checked = agrees.checked;
        stores = agrees.stores;
        pins = agrees.pins;
        notified = agrees.notified;
      } in
      rw inv.same (
        rw (inv.waits (first_one s inv p))
          (finalize_receive-finished c sid m root rooted seen ds agrees' w.named w.has w.cancel))

  closes :
      {ds' : Service} {e : Option Error} {res : Response} {rest : List Call} (s : Receiving)
      → Invs s
      → Pick (finalizing res) s.calls rest
      → finalize_receive c s.sess s.ds ≡ ok (ds', e)
      → (ds' ≡ finished c sid m root rooted sess ds) × (e ≡ none)
  closes s inv p ran = let same = sym ran ∙ finalizes s inv p in (cc same, cc same)

  Step-waits : {s t : Receiving} → Steps s t → Invs s → t.finals ≡ 0 → t.ds ≡ ds
  Step-waits (finalize p e) inv none_yet = absurd (omega (arith, none_yet))
  Step-waits (take p k ran fine) inv none_yet = inv.waits none_yet
  Step-waits (refuse p k ran bad) inv none_yet = inv.waits none_yet
  Step-waits (lock_first p e) inv none_yet = inv.waits none_yet
  Step-waits (come hash e) inv none_yet = inv.waits none_yet
  Step-waits (come_late hash e) inv none_yet = inv.waits none_yet
  Step-waits (find_complete p e) inv none_yet = inv.waits none_yet
  Step-waits (find_incomplete p e) inv none_yet = inv.waits none_yet
  Step-waits (lock_later p e) inv none_yet = inv.waits none_yet

  Step-served :
      {s t : Receiving}
      → Steps s t
      → Invs s
      → 0 < t.finals
      → t.ds ≡ finished c sid m root rooted sess ds
  Step-served {s} (finalize p e) inv some_one = (closes s inv p e).0
  Step-served (take p k ran fine) inv some_one = inv.served some_one
  Step-served (refuse p k ran bad) inv some_one = inv.served some_one
  Step-served (lock_first p e) inv some_one = inv.served some_one
  Step-served (come hash e) inv some_one = inv.served some_one
  Step-served (come_late hash e) inv some_one = inv.served some_one
  Step-served (find_complete p e) inv some_one = inv.served some_one
  Step-served (find_incomplete p e) inv some_one = inv.served some_one
  Step-served (lock_later p e) inv some_one = inv.served some_one

  abbrev HonestCalls : List Str → List Call → Type 0
  HonestCalls taken calls = (x : Call) → Memᴰ x calls → IsHonestCall taken x

  -- One call of an honest list goes on.
  HonestCalls-Pick :
      {x : Call} {calls rest : List Call} (taken : List Str) (y : Call)
      → Pick x calls rest
      → HonestCalls taken calls
      → (IsHonestCall taken x → IsHonestCall taken y)
      → HonestCalls taken (y ∷ rest)
  HonestCalls-Pick taken y p good go z m = elim (Memᴰ.cases_cons m) [
    | inl same ↦ rw same (go (good _ (Pick-Memᴰ p)))
    | inr later ↦ good z (Pick-rest p later)
  ]

  Step-HonestCalls : {s t : Receiving} → Steps s t → Invs s → HonestCalls t.taken t.calls
  Step-HonestCalls {s} (take {hash} {res = res} p k ran fine) inv x there =
      let (_, name, _) =
        took_at lib c sid Puts m root rooted sess ds w agrees begun _ _ s inv ran fine in
      elim (Memᴰ.cases_cons there) [
        | inl same ↦ rw same (λ good. (Memᴰ-concat res.hash hash s.taken).1 (inr name))
        | inr later ↦ IsHonestCall-concat s.taken hash x (inv.honest_calls x (Pick-rest p later))
      ]
  Step-HonestCalls (refuse p k ran bad) inv x there = inv.honest_calls x (Pick-rest p there)
  Step-HonestCalls {s} (lock_first {res} p e) inv x there =
      HonestCalls-Pick s.taken (finalizing res) p inv.honest_calls (λ good. good) x there
  Step-HonestCalls {s} (come hash e) inv x there = elim (Memᴰ.cases_cons there) [
    | inl same ↦ rw same tt
    | inr later ↦ inv.honest_calls x later
  ]
  Step-HonestCalls (come_late hash e) inv x there = inv.honest_calls x there
  Step-HonestCalls {s} (find_complete {res} p e) inv x there =
      HonestCalls-Pick s.taken (locking res) p inv.honest_calls (λ good. good) x there
  Step-HonestCalls (find_incomplete p e) inv x there = inv.honest_calls x (Pick-rest p there)
  Step-HonestCalls (lock_later p e) inv x there = inv.honest_calls x (Pick-rest p there)
  Step-HonestCalls (finalize p e) inv x there = inv.honest_calls x (Pick-rest p there)

  abbrev HonestAnswers : List Str → List Response → Type 0
  HonestAnswers taken answers = (res : Response) → Memᴰ res answers → IsHonest taken res

  HonestAnswers-cons :
      (taken : List Str) (answers : List Response) (res : Response)
      → IsHonest taken res
      → HonestAnswers taken answers
      → HonestAnswers taken (res ∷ answers)
  HonestAnswers-cons taken answers res one all other m = elim (Memᴰ.cases_cons m) [
    | inl same ↦ rw same one
    | inr later ↦ all other later
  ]

  Step-HonestAnswers : {s t : Receiving} → Steps s t → Invs s → HonestAnswers t.taken t.answers
  Step-HonestAnswers {s} (take {hash} p k ran fine) inv =
      λ res m. IsHonest-concat s.taken hash res (inv.honest res m)
  Step-HonestAnswers {s} (refuse {res = res} p k ran bad) inv =
      let (_, other) =
        turned_at lib c sid Puts m root rooted sess ds w agrees begun _ _ s inv ran bad in
      HonestAnswers-cons s.taken s.answers res (λ good. absurd (other good)) inv.honest
  Step-HonestAnswers (lock_first p e) inv = inv.honest
  Step-HonestAnswers (come hash e) inv = inv.honest
  Step-HonestAnswers {s} (come_late hash e) inv =
      HonestAnswers-cons s.taken s.answers (unknown_sid sid hash) (λ good. cc good) inv.honest
  Step-HonestAnswers (find_complete p e) inv = inv.honest
  Step-HonestAnswers {s} (find_incomplete {res} p e) inv =
      HonestAnswers-cons s.taken s.answers res (inv.honest_calls (checking res) (Pick-Memᴰ p))
        inv.honest
  Step-HonestAnswers {s} (lock_later {res} p e) inv =
      HonestAnswers-cons s.taken s.answers res (inv.honest_calls (locking res) (Pick-Memᴰ p))
        inv.honest
  Step-HonestAnswers {s} (finalize {res} p e) inv =
      let (_, fine) = closes s inv p e in
      rw fine (
        HonestAnswers-cons s.taken s.answers res (inv.honest_calls (finalizing res) (Pick-Memᴰ p))
          inv.honest)

  Step-Inv : {s t : Receiving} → Steps s t → Invs s → Invs t
  Step-Inv st inv = record {
    same = Step-same lib c sid Puts m root rooted sess ds w agrees begun st inv;
    marked = Step-marked lib c sid Puts m root rooted sess ds w agrees begun st inv;
    put = Step-put lib c sid Puts m root rooted sess ds w agrees begun st inv;
    begins = Step-begins lib c sid Puts m root rooted sess ds w agrees begun st inv;
    ends = Step-ends lib c sid Puts m root rooted sess ds w agrees begun st inv;
    sound = Step-sound lib c sid Puts m root rooted sess ds w agrees begun st inv;
    noticed = Step-Noticed lib c sid Puts m root rooted sess ds w agrees begun st inv;
    waits = Step-waits st inv;
    served = Step-served st inv;
    honest_calls = Step-HonestCalls st inv;
    honest = Step-HonestAnswers st inv;
  }

  started-Inv : Invs (started sess ds)
  unfolding mark_all new_completion
  started-Inv = record {
    same = refl;
    marked = begun;
    put = λ id there. absurd (Memᴰ.not-nil there);
    begins = λ off. refl;
    ends = λ on. absurd (cc (sym w.unfinished ∙ on));
    sound = λ some_one. absurd (omega (arith, some_one));
    noticed = λ full. inl refl;
    waits = λ none_yet. refl;
    served = λ some_one. absurd (omega (arith, some_one));
    honest_calls = λ x there. absurd (Memᴰ.not-nil there);
    honest = λ res there. absurd (Memᴰ.not-nil there);
  }

  pub Run-Inv : {n : ℕ} {s : Receiving} → Run lib c sid Puts (started sess ds) n s → Invs s
  Run-Inv still = started-Inv
  Run-Inv (onward r st) = Step-Inv st (Run-Inv r)
