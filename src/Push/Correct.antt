-- ===== src/Push/Correct.antt =====
-- A push of blocks comes to an end, and its success means what it should.
use mathlib.Core.List.Memᴰ
use dag.Base.{
  ℕ, zero, suc, ◌<◌, ◌≡◌, ◌≢◌, inl, inr, refl, sym, ap, ◌∙◌, Str, false, Memᴰ, Memᴰ-concat, Option,
  none, Error, arith, total_pos, Pick-Memᴰ, Pick-rest, List-cases,
}
use dag.Ipld.{Ipld, NodeGetter}
use dag.Manifest.{Manifest}
use dag.Completion.Taken.{nil}
use dag.Session.{Response, status_ok, status_errored}
use dag.Push.{
  Sending, started, parallelism_of, Step, feed, feed_again, parse, not_parsed, not_found, send,
  handle_ok, handle_errored, handle_retry, finished, unfinished, retry, give_up, stop, cancel,
  leave, Run, still, onward,
}
use dag.Push.Measure.{measure, Step-measure}
use dag.Push.Inv.{IsFair, Inv}
use dag.Push.Kept.{Step-Inv, started-Inv}
use dag.Push.Progress.{Responsive, progress}

not_ok : status_errored ≢ status_ok
not_ok e = cc

module _ (lib : Ipld) (ng : NodeGetter lib) (m diff : Manifest)
    (Answers : Str → Response → Type 0) where
  -- The remote said of some block that it was taken, and named it `id`.
  abbrev pub Acknowledged : Str → Type 0
  Acknowledged id =
      (h : Str) × (r : Response) × Answers h r × (r.status ≡ status_ok) × (r.hash ≡ id)

  -- A response that says so came from the remote.
  abbrev Genuine : Sending lib → Type 0
  Genuine s = (r : Response) → Memᴰ r s.responses → r.status ≡ status_ok → (h : Str) × Answers h r

  Step-Genuine : {s t : Sending lib} → Step lib ng m Answers s t → Genuine s → Genuine t
  Step-Genuine (send {h} {r} p e a) gen q there good = elim (Memᴰ.cases_cons there) [
    | inl same ↦ (h, rw same a)
    | inr old ↦ gen q old good
  ]
  Step-Genuine (not_parsed p e) gen q there good = elim (Memᴰ.cases_cons there) [
    | inl same ↦ absurd (not_ok (sym (ap (λ (x : Response). x.status) same) ∙ good))
    | inr old ↦ gen q old good
  ]
  Step-Genuine (not_found p e) gen q there good = elim (Memᴰ.cases_cons there) [
    | inl same ↦ absurd (not_ok (sym (ap (λ (x : Response). x.status) same) ∙ good))
    | inr old ↦ gen q old good
  ]
  Step-Genuine (handle_ok p e) gen q there good = gen q (Pick-rest p there) good
  Step-Genuine (handle_errored p e) gen q there good = gen q (Pick-rest p there) good
  Step-Genuine (handle_retry p e) gen q there good = gen q (Pick-rest p there) good
  Step-Genuine (feed e k) gen q there good = gen q there good
  Step-Genuine (feed_again e k) gen q there good = gen q there good
  Step-Genuine (parse p e) gen q there good = gen q there good
  Step-Genuine (finished c e) gen q there good = gen q there good
  Step-Genuine (unfinished c e) gen q there good = gen q there good
  Step-Genuine (retry on e p more) gen q there good = gen q there good
  Step-Genuine (give_up on e p last) gen q there good = gen q there good
  Step-Genuine (stop a b) gen q there good = gen q there good
  Step-Genuine (cancel e) gen q there good = gen q there good
  Step-Genuine (leave e k) gen q there good = gen q there good

  abbrev Acked : Sending lib → Type 0
  Acked s = (id : Str) → Memᴰ id s.taken → Acknowledged id

  Step-Acked : {s t : Sending lib} → Step lib ng m Answers s t → Genuine s → Acked s → Acked t
  Step-Acked {s} (handle_ok {r} p e) gen acked id there =
      elim ((Memᴰ-concat id r.hash s.taken).0 there) [
        | inl old ↦ acked id old
        | inr new ↦ let (h, a) = gen r (Pick-Memᴰ p) e in (h, r, a, e, sym new)
      ]
  Step-Acked (send p e a) gen acked id there = acked id there
  Step-Acked (not_parsed p e) gen acked id there = acked id there
  Step-Acked (not_found p e) gen acked id there = acked id there
  Step-Acked (handle_errored p e) gen acked id there = acked id there
  Step-Acked (handle_retry p e) gen acked id there = acked id there
  Step-Acked (feed e k) gen acked id there = acked id there
  Step-Acked (feed_again e k) gen acked id there = acked id there
  Step-Acked (parse p e) gen acked id there = acked id there
  Step-Acked (finished c e) gen acked id there = acked id there
  Step-Acked (unfinished c e) gen acked id there = acked id there
  Step-Acked (retry on e p more) gen acked id there = acked id there
  Step-Acked (give_up on e p last) gen acked id there = acked id there
  Step-Acked (stop a b) gen acked id there = acked id there
  Step-Acked (cancel e) gen acked id there = acked id there
  Step-Acked (leave e k) gen acked id there = acked id there

  Run-Acked :
      {t : Sending lib} {n : ℕ}
      → Run lib ng m Answers (started lib m diff) n t
      → Genuine t × Acked t
  Run-Acked still =
      (λ r there. absurd (Memᴰ.not-nil there), λ id there. absurd (Memᴰ.not-nil there))
  Run-Acked (onward r st) =
      let (gen, acked) = Run-Acked r in (Step-Genuine st gen, Step-Acked st gen acked)

  -- A push that goes on until there is something to return.
  abbrev pub Ends : Sending lib → Type 0
  Ends s =
      (k : ℕ) × (t : Sending lib) × (e : Option Error) × Run lib ng m Answers s k t
      × Memᴰ e t.results

  before :
      {s t u : Sending lib} {k : ℕ}
      → Step lib ng m Answers s t
      → Run lib ng m Answers t k u
      → Run lib ng m Answers s (suc k) u
  before st still = onward still st
  before st (onward r last) = onward (before st r) last

  module _ (fair : IsFair Answers) where
    Run-Inv :
        {t : Sending lib} {n : ℕ} → Run lib ng m Answers (started lib m diff) n t → Inv lib m diff t
    Run-Inv still = started-Inv lib ng m diff Answers fair
    Run-Inv (onward r st) = Step-Inv lib ng m diff Answers fair st (Run-Inv r)

    -- Where an answer of the remote names the block that was sent, unless it is an error, and an error
    -- comes with its reason: if a push of `diff` block by block can return without an error, then the
    -- remote has said of every block of the manifest that `diff` asks for that it was taken.
    pub push_nil_sound :
        {t : Sending lib} {n : ℕ}
        → Run lib ng m Answers (started lib m diff) n t
        → Memᴰ none t.results
        → (id : Str) → Memᴰ id m.nodes
        → Memᴰ id diff.nodes
        → Acknowledged id
    push_nil_sound r there id listed lacking =
        (Run-Acked r).1 id ((Run-Inv r).sound (total_pos nil there (omega arith)) id listed lacking)

    module _ (live : Responsive lib ng m diff Answers) (peopled : 0 < parallelism_of m) (d : Str)
        (wanted : Memᴰ d diff.nodes) where
      ends :
          (fuel : ℕ) (s : Sending lib)
          → measure lib s < fuel
          → Inv lib m diff s
          → s.ctx_done ≡ false
          → Ends s
      ends zero s small inv live_ctx = absurd (omega arith)
      ends (suc fuel) s small inv live_ctx = elim (List-cases s.results) [
        | inr (e, rest, there) ↦ (0, s, e, still, rw there (Memᴰ.head refl))
        | inl waits ↦
            let (t, st, live_t) =
              progress lib ng m diff Answers live peopled d wanted s inv live_ctx waits in
            let less = Step-measure lib ng m Answers st inv.few in
            let (k, u, e, r, there) =
              ends fuel t (omega (arith, less)) (Step-Inv lib ng m diff Answers fair st inv)
                live_t in
            (suc k, u, e, before st r, there)
      ]

      -- Where an answer of the remote names the block that was sent, unless it is an error, and an
      -- error comes with its reason; where the library does not panic and the remote answers each
      -- block; where the manifest has a node and `diff` asks for a block: from every state that a push
      -- reaches without being cancelled it can go on to a state where it returns.
      pub push_returns :
          {s : Sending lib} {n : ℕ}
          → Run lib ng m Answers (started lib m diff) n s
          → s.ctx_done ≡ false
          → Ends s
      push_returns {s} r live_ctx = ends (suc (measure lib s)) s (omega arith) (Run-Inv r) live_ctx
