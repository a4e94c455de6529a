-- ===== src/Pull/Measure.antt =====
-- Each step of a pull brings it nearer to its end.
use dag.Base.{
  ℕ, ◌+◌, ◌*◌, ◌<◌, ◌≤◌, ◌≡◌, Str, Bool, true, false, List, [], ◌∷◌, length, Result, arith, total,
  total-Pick,
}
use dag.Manifest.{Manifest}
use dag.Pull.{
  BlockResponse, Pulling, started, Step, ask, get, refused, put_failed, mismatched, store, finished,
  unfinished, cancel, leave, Run, still, onward,
}

abbrev undone : Bool → ℕ
undone true = 0
undone false = 1

-- How many steps a state can still cause, at most.
abbrev pub measure : Pulling → ℕ
measure s =
    total (λ (h : Str). 4) s.queue
    + total (λ (h : Str). 3) s.jobs
    + total (λ (r : BlockResponse). 2) s.responses
    + s.checks
    + undone s.ctx_done
    + undone s.ctx_told

module _ (m : Manifest) (Serves Puts : Str → Result Str → Type 0) where
  abbrev two : BlockResponse → ℕ
  two r = 2

  pub Step-measure : {s t : Pulling} → Step m Serves Puts s t → measure t < measure s
  Step-measure (ask e k) = rw e (omega arith)
  Step-measure (get p a) = omega (arith, total-Pick (λ (h : Str). 3) p)
  Step-measure (refused p e) = omega (arith, total-Pick two p)
  Step-measure (put_failed p e f) = omega (arith, total-Pick two p)
  Step-measure (mismatched p e f d) = omega (arith, total-Pick two p)
  Step-measure (store p e f) = omega (arith, total-Pick two p)
  Step-measure (finished c e) = omega arith
  Step-measure (unfinished c e) = omega arith
  Step-measure (cancel e) = rw e (omega arith)
  Step-measure (leave e f) = rw f (omega arith)

  Run-measure : {s t : Pulling} {n : ℕ} → Run m Serves Puts s n t → n + measure t ≤ measure s
  Run-measure still = omega arith
  Run-measure (onward r st) = omega (arith, Step-measure st, Run-measure r)

  total-length : (xs : List Str) → total (λ (h : Str). 4) xs ≡ 4 * length xs
  total-length [] = omega arith
  total-length (x ∷ xs) = omega (arith, total-length xs)

  -- Whatever the remote and the store answer, and in whatever order the goroutines run, a pull of
  -- `diff` block by block makes at most four steps for each block that is missing, and 2 more.
  pub pull_ends :
      (diff : Manifest) {t : Pulling} {n : ℕ}
      → Run m Serves Puts (started m diff) n t
      → n ≤ 4 * length diff.nodes + 2
  pull_ends diff r = omega (arith, Run-measure r, total-length diff.nodes)
