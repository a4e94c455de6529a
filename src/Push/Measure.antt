-- ===== src/Push/Measure.antt =====
-- Each step of a push brings it nearer to its end.
use dag.Base.{
  ℕ, ◌+◌, ◌-◌, ◌*◌, ◌<◌, ◌≤◌, ◌≡◌, Str, Bool, true, false, List, [], ◌∷◌, length, Option, none,
  some, arith, total, total-Pick,
}
use dag.Ipld.{Ipld, NodeGetter}
use dag.Manifest.{Manifest}
use dag.Session.{Response}
use dag.Push.{
  Job, parsing, getting, Sending, started, parallelism_of, Step, feed, feed_again, parse,
  not_parsed, not_found, send, handle_ok, handle_errored, handle_retry, finished, unfinished, retry,
  give_up, stop, cancel, leave, Run, still, onward,
}

module _ (lib : Ipld) where
  -- How many steps a thing can still cause, at most.
  abbrev job_weight : Job lib → ℕ
  job_weight (parsing h) = 8
  job_weight (getting h c) = 4

  abbrev pending : Option Str → ℕ
  pending none = 0
  pending (some h) = 9

  abbrev undone : Bool → ℕ
  undone true = 0
  undone false = 1

  abbrev pub measure : Sending lib → ℕ
  measure s =
      total (λ (h : Str). 9) s.queue
      + pending s.resend
      + total job_weight s.jobs
      + total (λ (r : Response). 3) s.responses
      + total (λ (h : Str). 2) s.again
      + 2 * s.checks
      + 8 * (80 - s.retries)
      + s.senders
      + undone s.ctx_done

  -- The goroutine for retries ends before it counts too far.
  abbrev pub IsFew : Sending lib → Type 0
  IsFew s = s.retrying ≡ true → s.retries < 80

  module _ (ng : NodeGetter lib) (m : Manifest) (Answers : Str → Response → Type 0) where
    pub Step-IsFew : {s t : Sending lib} → Step lib ng m Answers s t → IsFew s → IsFew t
    Step-IsFew (retry on e p more) few = λ _. omega (arith, few on)
    Step-IsFew (give_up on e p last) few = λ f. cc
    Step-IsFew (feed e k) few = few
    Step-IsFew (feed_again e k) few = few
    Step-IsFew (parse p e) few = few
    Step-IsFew (not_parsed p e) few = few
    Step-IsFew (not_found p e) few = few
    Step-IsFew (send p e a) few = few
    Step-IsFew (handle_ok p e) few = few
    Step-IsFew (handle_errored p e) few = few
    Step-IsFew (handle_retry p e) few = few
    Step-IsFew (finished c e) few = few
    Step-IsFew (unfinished c e) few = few
    Step-IsFew (stop a b) few = few
    Step-IsFew (cancel e) few = few
    Step-IsFew (leave e k) few = few

    pub Step-measure :
        {s t : Sending lib} → Step lib ng m Answers s t → IsFew s → measure t < measure s
    Step-measure {s} (feed e k) few = rw e (omega arith)
    Step-measure {s} (feed_again e k) few = rw e (omega arith)
    Step-measure {s} (parse p e) few = omega (arith, total-Pick job_weight p)
    Step-measure {s} (not_parsed p e) few = omega (arith, total-Pick job_weight p)
    Step-measure {s} (not_found p e) few = omega (arith, total-Pick job_weight p)
    Step-measure {s} (send p e a) few = omega (arith, total-Pick job_weight p)
    Step-measure {s} (handle_ok p e) few = omega (arith, total-Pick (λ (r : Response). 3) p)
    Step-measure {s} (handle_errored p e) few = omega (arith, total-Pick (λ (r : Response). 3) p)
    Step-measure {s} (handle_retry p e) few = omega (arith, total-Pick (λ (r : Response). 3) p)
    Step-measure {s} (finished c e) few = omega arith
    Step-measure {s} (unfinished c e) few = omega arith
    Step-measure {s} (retry on e p more) few =
        rw e (omega (arith, total-Pick (λ (h : Str). 2) p, few on))
    Step-measure {s} (give_up on e p last) few =
        omega (arith, total-Pick (λ (h : Str). 2) p, few on)
    Step-measure {s} (stop a b) few = omega arith
    Step-measure {s} (cancel e) few = rw e (omega arith)
    Step-measure {s} (leave e k) few = omega arith

    Run-measure :
        {s t : Sending lib} {n : ℕ}
        → Run lib ng m Answers s n t
        → IsFew s
        → IsFew t × (n + measure t ≤ measure s)
    Run-measure still few = (few, omega arith)
    Run-measure (onward r st) few =
        let (few', le) = Run-measure r few in
        (Step-IsFew st few', omega (arith, Step-measure st few'))

    total-length : (xs : List Str) → total (λ (h : Str). 9) xs ≡ 9 * length xs
    total-length [] = omega arith
    total-length (x ∷ xs) = omega (arith, total-length xs)

    parallelism_of-le : parallelism_of m ≤ 1
    unfolding parallelism_of
    parallelism_of-le = elim m.nodes as (λ xs. elim xs [ [] ↦ 0 | _ ∷ _ ↦ 1 ] ≤ 1) [
      | [] ↦ omega arith
      | x ∷ xs ↦ omega arith
    ]

    -- Whatever the remote answers, and in whatever order the goroutines run, a push of `diff` block
    -- by block makes at most nine steps for each block that it was asked for, and 642 more.
    pub push_ends :
        (diff : Manifest) {t : Sending lib} {n : ℕ}
        → Run lib ng m Answers (started lib m diff) n t
        → n ≤ 9 * length diff.nodes + 642
    push_ends diff r =
        omega
          (arith, (Run-measure r (λ _. omega arith)).1, total-length diff.nodes, parallelism_of-le)
