-- ===== src/Pull.antt =====
-- dsync/pull.go: a pull, block by block, as the goroutines of `do` run it.
pub mod Measure
pub mod Inv
pub mod Progress
pub mod Correct
pub mod Begin
pub mod Whole
use dag.Base.{
  ℕ, zero, suc, ◌+◌, ◌<◌, ◌≡◌, ◌≢◌, Str, Bool, true, false, List, [], ◌∷◌, ◌++◌, Option, none, some,
  Result, Error, ok, err, hash_integrity_mismatch, Pick,
}
use dag.Manifest.{Manifest}
use dag.Completion.{Completion, new_completion, mark, is_complete}

-- defaultPullParallelism
abbrev pub default_pull_parallelism : ℕ
default_pull_parallelism = 1

-- The number of pullers that `do` starts.
pub pullers_of : Manifest → ℕ
pullers_of diff = elim diff.nodes [ [] ↦ 0 | _ ∷ _ ↦ default_pull_parallelism ]

-- blockResponse: `raw` is what GetBlock of the remote returned.
pub record BlockResponse : Type 0 where
  pub hash : Str
  pub raw : Result Str

-- What the goroutines hold. A list of waiting goroutines has no order that matters.
pub record Pulling : Type 0 where
  pub queue : List Str  -- what is left to put on reqCh, in this order
  pub pullers : ℕ
  pub jobs : List Str  -- the calls of GetBlock
  pub responses : List BlockResponse  -- sent, and not yet handled
  pub prog : Completion
  pub taken : List Str  -- the blocks that were marked, in this order
  pub checks : ℕ  -- handlers that marked a block and have yet to call Complete
  pub failures : ℕ  -- how often Put has failed
  pub results : List (Option Error)  -- what waits to be put on errCh
  pub ctx_done : Bool
  pub ctx_told : Bool  -- whether the loop has seen it, and waits to put a nil on errCh

-- The state of `do` when all is started.
abbrev pub started : Manifest → Manifest → Pulling
started m diff = record {
  queue = diff.nodes;
  pullers = pullers_of diff;
  jobs = [];
  responses = [];
  prog = new_completion m diff;
  taken = [];
  checks = 0;
  failures = 0;
  results = [];
  ctx_done = false;
  ctx_told = false;
}

-- `Serves hash raw`: to GetBlock of `hash` the remote may return `raw`. `Puts raw id`: Put of the
-- bytes `raw` in the local store may return the identifier `id`, or an error.
module _ (m : Manifest) (Serves : Str → Result Str → Type 0)
    (Puts : Str → Result Str → Type 0) where
  -- One step of one goroutine, up to where it waits. What it does when its value has been taken from
  -- errCh comes after the return of `do`.
  pub data Step (s : Pulling) : Pulling → Type 0 where
    ask :
        {h : Str} {rest : List Str}
        → s.queue ≡ h ∷ rest
        → 0 < s.pullers
        → Step s (record s { queue = rest; jobs = h ∷ s.jobs })
    get :
        {h : Str} {raw : Result Str} {rest : List Str}
        → Pick h s.jobs rest
        → Serves h raw
        → Step s
            (record s { jobs = rest; responses = record { hash = h; raw = raw } ∷ s.responses })
    -- `if res.Error != nil`
    refused :
        {r : BlockResponse} {e : Error} {rest : List BlockResponse}
        → Pick r s.responses rest
        → r.raw ≡ err e
        → Step s (record s { responses = rest; results = some e ∷ s.results })
    -- Put fails: what is sent is `res.Error`, which is nil
    put_failed :
        {r : BlockResponse} {raw : Str} {e : Error} {rest : List BlockResponse}
        → Pick r s.responses rest
        → r.raw ≡ ok raw
        → Puts raw (err e)
        → Step s
            (record s { responses = rest; failures = suc s.failures; results = none ∷ s.results })
    mismatched :
        {r : BlockResponse} {raw id : Str} {rest : List BlockResponse}
        → Pick r s.responses rest
        → r.raw ≡ ok raw
        → Puts raw (ok id)
        → id ≢ r.hash
        → Step s (record s {
          responses = rest;
          results = some (hash_integrity_mismatch id r.hash) ∷ s.results;
        })
    store :
        {r : BlockResponse} {raw : Str} {rest : List BlockResponse}
        → Pick r s.responses rest
        → r.raw ≡ ok raw
        → Puts raw (ok r.hash)
        → Step s (record s {
          responses = rest;
          prog = mark r.hash m s.prog;
          taken = s.taken ++ r.hash ∷ [];
          checks = suc s.checks;
        })
    -- `if f.prog.Complete()`
    finished :
        {n : ℕ}
        → s.checks ≡ suc n
        → is_complete s.prog ≡ true
        → Step s (record s { checks = n; results = none ∷ s.results })
    unfinished :
        {n : ℕ} → s.checks ≡ suc n → is_complete s.prog ≡ false → Step s (record s { checks = n })
    -- the context ends, and the loop sees it: what is sent is nil
    cancel : s.ctx_done ≡ false → Step s (record s { ctx_done = true })
    leave :
        s.ctx_done ≡ true
        → s.ctx_told ≡ false
        → Step s (record s { ctx_told = true; results = none ∷ s.results })

  -- A run of so many steps.
  pub data Run (s : Pulling) : ℕ → Pulling → Type 0 where
    still : Run s 0 s
    onward : {n : ℕ} {t u : Pulling} → Run s n t → Step t u → Run s (suc n) u
