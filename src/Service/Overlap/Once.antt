-- ===== src/Service/Overlap/Once.antt =====
-- dsync/dsync.go and dsync/session.go: a transfer whose calls of ReceiveBlock overlap is finalised
-- once, and ends as the one that makes one call after the other.
use dag.Base.{
  ℕ, ◌<◌, ◌≤◌, ◌≡◌, ◌≢◌, inl, inr, ap, ◌∙◌, Str, Str_discrete, true, [], Memᴰ, none, some, Result,
  ok, get_elem?, arith, lookup, Bool-cases,
}
use dag.Ipld.{Ipld}
use dag.Manifest.{Manifest}
use dag.Completion.{new_completion, is_complete}
use dag.Completion.Laws.{transfer_complete}
use dag.Completion.Taken.{AllTaken}
use dag.Session.{Session, Response, status_ok}
use dag.Service.{Settings, Service}
use dag.Service.Finish.{Agrees, finished}
use dag.Service.Transfer.{Waiting, removed}
use dag.Service.Overlap.{Receiving, started, Run}
use dag.Service.Overlap.Inv.{Inv}
use dag.Service.Overlap.Kept.{Run-Inv}

module _ (lib : Ipld) (c : Settings) (sid : Str) (Puts : Str → Result Str → Type 0) (m : Manifest)
    (root : Str) (rooted : get_elem? m.nodes 0 ≡ some root) (sess : Session) (ds : Service)
    (w : Waiting lib c sid m root rooted sess ds) (agrees : Agrees c sid m root rooted sess)
    (begun : sess.prog ≡ new_completion m sess.diff) where
  abbrev pub Reached : ℕ → Receiving → Type 0
  Reached = Run lib c sid Puts (started sess ds)

  -- What holds at the start holds in each state.
  pub all_kept :
      {n : ℕ} {s : Receiving}
      → Reached n s
      → Inv lib c sid Puts m root rooted sess ds w agrees begun s
  all_kept = Run-Inv lib c sid Puts m root rooted sess ds w agrees begun

  at_most_once :
      (s : Receiving) → Inv lib c sid Puts m root rooted sess ds w agrees begun s → s.finals ≤ 1
  at_most_once s inv = elim (Bool-cases s.sess.fin) [
    | inl on ↦ omega (arith, inv.ends on)
    | inr off ↦ omega (arith, inv.begins off)
  ]

  -- The session waits for blocks, its manifest has a first node, and it has the progress that
  -- NewCompletion gives it; the final check, PutDAGInfo of the info store and the hook for completed
  -- transfers return no error for it, and pinning works if it asks for it. In each state that calls of ReceiveBlock for it reach,
  -- however their steps are interleaved, finalizeReceive was called at most once. A block that was
  -- taken is one that the store put under its name, and an answer with the status ok names a block
  -- that was taken. Before finalizeReceive the service is the one at the start. After it, every
  -- block that is missing was taken, the service is as the end of a transfer leaves the one at the
  -- start, and the session is gone.
  pub finalized_once :
      {n : ℕ} {s : Receiving}
      → Reached n s
      → (s.finals ≤ 1)
        × ((id : Str) → Memᴰ id s.taken → Puts id (ok id))
        × ((res : Response) → Memᴰ res s.answers → res.status ≡ status_ok → Memᴰ res.hash s.taken)
        × (s.finals ≡ 0 → s.ds ≡ ds)
        × (0 < s.finals
            → AllTaken m sess.diff s.taken
              × (s.ds ≡ finished c sid m root rooted sess ds)
              × (lookup Str_discrete sid s.ds.session_pool ≡ none))
  finalized_once {n} {s} r =
      let inv = all_kept r in
      (
        at_most_once s inv,
        inv.put,
        inv.honest,
        inv.waits,
        λ some_one. (
          inv.sound (omega (arith, some_one)),
          inv.served some_one,
          ap (λ (x : Service). lookup Str_discrete sid x.session_pool) (inv.served some_one)
              ∙ removed lib c sid m root rooted ds.session_pool,
        ),
      )

  -- The session waits for blocks, its manifest has a first node, and it has the progress that
  -- NewCompletion gives it; the final check, PutDAGInfo of the info store and the hook for completed
  -- transfers return no error for it, and pinning works if it asks for it. In a state that calls of
  -- ReceiveBlock for it reach, when no call is under way, a block was taken, and every missing block
  -- was, finalizeReceive was called exactly once, and the service is as the end of a transfer leaves
  -- the one at the start, whichever way the steps of the calls were interleaved.
  pub overlap_settles :
      {n : ℕ} {s : Receiving}
      → Reached n s
      → s.calls ≡ []
      → s.taken ≢ []
      → AllTaken m sess.diff s.taken
      → (s.finals ≡ 1) × (s.ds ≡ finished c sid m root rooted sess ds)
  overlap_settles {n} {s} r idle some_taken all =
      let inv = all_kept r in
      let full : is_complete s.sess.prog ≡ true =
        rw inv.marked ((transfer_complete m sess.diff s.taken).1 all) in
      let on : s.sess.fin ≡ true = elim (inv.noticed full) [
        | inl none_yet ↦ absurd (some_taken none_yet)
        | inr (inl set) ↦ set
        | inr (inr some_one) ↦ absurd (omega (arith, rw idle at some_one))
      ] in
      let once : s.finals ≡ 1 = omega (arith, rw idle at (inv.ends on)) in
      (once, inv.served (omega (arith, once)))
