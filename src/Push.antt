-- ===== src/Push.antt =====
-- dsync/push.go: a push, block by block, as the goroutines of `do` run it.
pub mod Measure
pub mod Inv
pub mod Kept
pub mod Progress
pub mod Correct
pub mod ToService
pub mod Begin
pub mod Whole
use dag.Base.{
  ℕ, zero, suc, ◌+◌, ◌<◌, ◌≡◌, ◌≢◌, Str, Bool, true, false, List, [], ◌∷◌, ◌++◌, length, Option,
  none, some, Result, Error, ok, err, max_retries_reached, Pick,
}
use dag.Ipld.{Ipld, Node, NodeGetter}
use dag.Manifest.{Manifest}
use dag.Completion.{Completion, new_completion, mark, is_complete}
use dag.Session.{Status, Response, status_ok, status_errored, status_retry}

-- defaultPushParallelism and maxRetries
abbrev pub default_push_parallelism : ℕ
default_push_parallelism = 1

abbrev pub max_retries : ℕ
max_retries = 80

-- The number of senders that NewPush sets.
unfoldable pub parallelism_of : Manifest → ℕ
parallelism_of m = elim m.nodes [ [] ↦ 0 | _ ∷ _ ↦ default_push_parallelism ]

-- A goroutine that a sender has started for one block: before cid.Parse, and before Get.
pub data Job (lib : Ipld) : Type 0 where
  parsing : Str → Job lib
  getting : Str → lib.Cid → Job lib

-- What the goroutines hold. A list of waiting goroutines has no order that matters.
pub record Sending (lib : Ipld) : Type 0 where
  pub queue : List Str  -- what is left to put on blocksCh, in this order
  pub resend : Option Str  -- what the goroutine for retries waits to put there
  pub senders : ℕ  -- how many run
  pub stops : ℕ  -- how many stop signals wait
  pub jobs : List (Job lib)
  pub responses : List Response  -- sent, and not yet handled
  pub prog : Completion
  pub taken : List Str  -- the blocks that were marked, in this order
  pub checks : ℕ  -- handlers that marked a block and have yet to call Complete
  pub again : List Str  -- what handlers wait to put on `retries`
  pub retries : ℕ
  pub retrying : Bool  -- whether the goroutine for retries runs
  pub results : List (Option Error)  -- what waits to be put on errCh
  pub ctx_done : Bool

abbrev pub errored : Str → Error → Response
errored hash e = record { hash = hash; status = status_errored; error = some e }

-- The state of `do` when all is started.
abbrev pub started : (lib : Ipld) → Manifest → Manifest → Sending lib
started lib m diff = record {
  queue = diff.nodes;
  resend = none;
  senders = parallelism_of m;
  stops = 0;
  jobs = [];
  responses = [];
  prog = new_completion m diff;
  taken = [];
  checks = 0;
  again = [];
  retries = 0;
  retrying = true;
  results = [];
  ctx_done = false;
}

module _ (lib : Ipld) (ng : NodeGetter lib) (m : Manifest) (Answers : Str → Response → Type 0) where
  -- One step of one goroutine. `Answers hash r`: to the block `hash` the remote may answer `r`.
  pub data Step (s : Sending lib) : Sending lib → Type 0 where
    -- a sender takes a hash from blocksCh and starts a goroutine
    feed :
        {h : Str} {rest : List Str}
        → s.queue ≡ h ∷ rest
        → 0 < s.senders
        → Step s (record s { queue = rest; jobs = parsing h ∷ s.jobs })
    feed_again :
        {h : Str}
        → s.resend ≡ some h
        → 0 < s.senders
        → Step s (record s { resend = none; jobs = parsing h ∷ s.jobs })
    parse :
        {h : Str} {c : lib.Cid} {rest : List (Job lib)}
        → Pick (parsing h) s.jobs rest
        → lib.parse h ≡ ok c
        → Step s (record s { jobs = getting h c ∷ rest })
    -- the goroutine goes on after the error, with the Cid that Parse returned beside it
    not_parsed :
        {h : Str} {e : Error} {rest : List (Job lib)}
        → Pick (parsing h) s.jobs rest
        → lib.parse h ≡ err e
        → Step s
            (record s { jobs = getting h lib.undef ∷ rest; responses = errored h e ∷ s.responses })
    not_found :
        {h : Str} {c : lib.Cid} {e : Error} {rest : List (Job lib)}
        → Pick (getting h c) s.jobs rest
        → ng.get c ≡ err e
        → Step s (record s { jobs = rest; responses = errored h e ∷ s.responses })
    send :
        {h : Str} {c : lib.Cid} {n : Node lib} {r : Response} {rest : List (Job lib)}
        → Pick (getting h c) s.jobs rest
        → ng.get c ≡ ok n
        → Answers h r
        → Step s (record s { jobs = rest; responses = r ∷ s.responses })
    -- a handler of a response, up to where it waits
    handle_ok :
        {r : Response} {rest : List Response}
        → Pick r s.responses rest
        → r.status ≡ status_ok
        → Step s (record s {
          responses = rest;
          prog = mark r.hash m s.prog;
          taken = s.taken ++ r.hash ∷ [];
          checks = suc s.checks;
        })
    handle_errored :
        {r : Response} {rest : List Response}
        → Pick r s.responses rest
        → r.status ≡ status_errored
        → Step s (record s { responses = rest; results = r.error ∷ s.results })
    handle_retry :
        {r : Response} {rest : List Response}
        → Pick r s.responses rest
        → r.status ≡ status_retry
        → Step s (record s { responses = rest; again = r.hash ∷ s.again })
    -- `if snd.prog.Complete()`
    finished :
        {n : ℕ}
        → s.checks ≡ suc n
        → is_complete s.prog ≡ true
        → Step s (record s { checks = n; results = none ∷ s.results })
    unfinished :
        {n : ℕ} → s.checks ≡ suc n → is_complete s.prog ≡ false → Step s (record s { checks = n })
    -- the goroutine for retries
    retry :
        {h : Str} {rest : List Str}
        → s.retrying ≡ true
        → s.resend ≡ none
        → Pick h s.again rest
        → suc s.retries ≢ max_retries
        → Step s (record s { again = rest; retries = suc s.retries; resend = some h })
    give_up :
        {h : Str} {rest : List Str}
        → s.retrying ≡ true
        → s.resend ≡ none
        → Pick h s.again rest
        → suc s.retries ≡ max_retries
        → Step s (record s {
          again = rest;
          retries = suc s.retries;
          retrying = false;
          stops = s.senders;
          results = some max_retries_reached ∷ s.results;
        })
    -- a sender takes a stop signal, or sees that the context is done
    stop :
        {n k : ℕ}
        → s.stops ≡ suc n
        → s.senders ≡ suc k
        → Step s (record s { stops = n; senders = k })
    cancel : s.ctx_done ≡ false → Step s (record s { ctx_done = true })
    leave : {k : ℕ} → s.ctx_done ≡ true → s.senders ≡ suc k → Step s (record s { senders = k })

  -- A run of so many steps.
  pub data Run (s : Sending lib) : ℕ → Sending lib → Type 0 where
    still : Run s 0 s
    onward : {n : ℕ} {t u : Sending lib} → Run s n t → Step t u → Run s (suc n) u
