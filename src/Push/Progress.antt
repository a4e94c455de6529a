-- ===== src/Push/Progress.antt =====
-- Unless it is cancelled, a push can always go on, until something is put on errCh.
use dag.Base.{
  ℕ, suc, ◌<◌, ◌≡◌, ◌≢◌, ◌⊎◌, inl, inr, refl, ap, Str, true, false, Bool-cases, List, [], ◌∷◌, Memᴰ,
  length, none, Option-cases, Result-cases, panic, arith, total, ℕ_discrete, Pick, first,
  List-cases, ◌-◌,
}
use dag.Ipld.{Ipld, NodeGetter}
use dag.Manifest.{Manifest}
use dag.Completion.{is_complete}
use dag.Completion.Laws.{transfer_complete}
use dag.Completion.Taken.{hit, total_hit-Memᴰ, AllTaken}
use dag.Session.{Response, Status, status_ok, status_errored, status_retry}
use dag.Push.{
  Job, parsing, getting, Sending, parallelism_of, max_retries, Step, feed, feed_again, parse,
  not_parsed, not_found, send, handle_ok, handle_errored, handle_retry, finished, unfinished, retry,
  give_up,
}
use dag.Push.Inv.{response_hit, pending_hit, job_hit, Inv}

Status-cases : (st : Status) → (st ≡ status_ok) ⊎ ((st ≡ status_errored) ⊎ (st ≡ status_retry))
Status-cases status_ok = inl refl
Status-cases status_errored = inr (inl refl)
Status-cases status_retry = inr (inr refl)

module _ (lib : Ipld) (ng : NodeGetter lib) (m diff : Manifest)
    (Answers : Str → Response → Type 0) where
  -- What a push leans on: the library does not panic, and the remote answers each block.
  pub record Responsive : Type 0 where
    pub parses : (h : Str) → lib.parse h ≢ panic
    pub gets : (c : lib.Cid) → ng.get c ≢ panic
    pub replies : (h : Str) → (r : Response) × Answers h r

  module _ (live : Responsive) (peopled : 0 < parallelism_of m) (d : Str)
      (wanted : Memᴰ d diff.nodes) (s : Sending lib) (inv : Inv lib m diff s)
      (open_ctx : s.ctx_done ≡ false) (waits : s.results ≡ []) where
    -- A step that does not cancel.
    abbrev Next : Type 0
    Next = (t : Sending lib) × Step lib ng m Answers s t × (t.ctx_done ≡ false)

    still_on : s.retrying ≡ true
    still_on = elim (Bool-cases s.retrying) [
      | inl on ↦ on
      | inr off ↦ absurd (omega (arith, inv.manned.over off, ap length waits))
    ]

    manned : 0 < s.senders
    manned = omega (arith, inv.manned.staffed open_ctx still_on)

    from_check : (n : ℕ) → s.checks ≡ suc n → Next
    from_check n e = elim (Bool-cases (is_complete s.prog)) [
      | inl full ↦ (_, finished e full, open_ctx)
      | inr short ↦ (_, unfinished e short, open_ctx)
    ]

    from_response : (r : Response) (rest : List Response) → s.responses ≡ r ∷ rest → Next
    from_response r rest e =
        let p : Pick r s.responses rest = rw e first in
        elim (Status-cases r.status) [
          | inl good ↦ (_, handle_ok p good, open_ctx)
          | inr (inl bad) ↦ (_, handle_errored p bad, open_ctx)
          | inr (inr again) ↦ (_, handle_retry p again, open_ctx)
        ]

    from_job : (j : Job lib) (rest : List (Job lib)) → s.jobs ≡ j ∷ rest → Next
    from_job (parsing h) rest e =
        let here : Pick (parsing h) s.jobs rest = rw e first in
        elim (Result-cases (lib.parse h)) [
          | inl (c, p) ↦ (_, parse here p, open_ctx)
          | inr (inl (why, p)) ↦ (_, not_parsed here p, open_ctx)
          | inr (inr p) ↦ absurd (live.parses h p)
        ]
    from_job (getting h c) rest e =
        let here : Pick (getting h c) s.jobs rest = rw e first in
        elim (Result-cases (ng.get c)) [
          | inl (n, g) ↦ let (r, answer) = live.replies h in (_, send here g answer, open_ctx)
          | inr (inl (why, g)) ↦ (_, not_found here g, open_ctx)
          | inr (inr g) ↦ absurd (live.gets c g)
        ]

    from_again : (h : Str) (rest : List Str) → s.resend ≡ none → s.again ≡ h ∷ rest → Next
    from_again h rest idle e =
        let here : Pick h s.again rest = rw e first in
        elim (ℕ_discrete (suc s.retries) max_retries) [
          | yes last ↦ (_, give_up still_on idle here last, open_ctx)
          | no more ↦ (_, retry still_on idle here more, open_ctx)
        ]

    -- With nothing under way, every block was taken, and the last handler has seen it.
    not_stuck :
        s.checks ≡ 0
        → s.responses ≡ []
        → s.jobs ≡ []
        → s.queue ≡ []
        → s.resend ≡ none
        → s.again ≡ []
        → ⊥
    not_stuck c r j q p a =
        let done_all : (id : Str) → Memᴰ id diff.nodes → 0 < total (hit id) s.taken = λ id lacking.
          omega (
            arith,
            inv.accounted id lacking,
            ap (total (hit id)) q,
            ap (pending_hit id) p,
            ap (total (job_hit lib id)) j,
            ap (total (response_hit id)) r,
            ap (total (hit id)) a,
            ap length waits,
          ) in
        let all : AllTaken m diff s.taken =
          λ id listed lacking. total_hit-Memᴰ id s.taken (done_all id lacking) in
        let full : is_complete s.prog ≡ true =
          rw inv.marked ((transfer_complete m diff s.taken).1 all) in
        elim (inv.noticed full) [
          | inl empty ↦ omega (arith, done_all d wanted, ap (total (hit d)) empty)
          | inr busy ↦ omega (arith, busy, c, ap length waits)
        ]

    from_idle : s.checks ≡ 0 → s.responses ≡ [] → s.jobs ≡ [] → s.queue ≡ [] → Next
    from_idle c r j q = elim (Option-cases s.resend) [
      | inr (h, e) ↦ (_, feed_again e manned, open_ctx)
      | inl idle ↦ elim (List-cases s.again) [
        | inl a ↦ absurd (not_stuck c r j q idle a)
        | inr (h, rest, e) ↦ from_again h rest idle e
      ]
    ]

    pub progress : Next
    progress = elim (ℕ_discrete s.checks 0) [
      | no busy ↦ from_check (s.checks - 1) (omega arith)
      | yes c ↦ elim (List-cases s.responses) [
        | inr (r, rest, e) ↦ from_response r rest e
        | inl r ↦ elim (List-cases s.jobs) [
          | inr (job, rest, e) ↦ from_job job rest e
          | inl j ↦ elim (List-cases s.queue) [
            | inr (h, rest, e) ↦ (_, feed e manned, open_ctx)
            | inl q ↦ from_idle c r j q
          ]
        ]
      ]
    ]
