-- ===== src/Push/Inv.antt =====
-- What holds in each state of a push.
use dag.Base.{
  ℕ, ◌+◌, ◌<◌, ◌≡◌, ◌≢◌, ◌⊎◌, Str, true, false, [], Memᴰ, length, Option, none, some, Error, total,
}
use dag.Ipld.{Ipld}
use dag.Manifest.{Manifest}
use dag.Completion.{new_completion, is_complete}
use dag.Completion.Laws.{mark_all}
use dag.Completion.Taken.{hit, nil, AllTaken}
use dag.Session.{Response, Status, status_ok, status_errored, status_retry}
use dag.Push.{Job, parsing, getting, Sending, parallelism_of}
use dag.Push.Measure.{IsFew}

-- What a remote must keep to: an answer names the block that was sent, unless it is an error, and an
-- error comes with its reason.
pub record IsFair (Answers : Str → Response → Type 0) : Type 0 where
  pub names : (h : Str) (r : Response) → Answers h r → r.status ≢ status_errored → r.hash ≡ h
  pub explains : (h : Str) (r : Response) → Answers h r → r.status ≡ status_errored → r.error ≢ none

abbrev pub status_hit : Status → ℕ → ℕ
status_hit status_errored n = 1
status_hit status_ok n = n
status_hit status_retry n = n

-- An error counts for every block.
abbrev pub response_hit : Str → Response → ℕ
response_hit id r = status_hit r.status (hit id r.hash)

abbrev pub pending_hit : Str → Option Str → ℕ
pending_hit id none = 0
pending_hit id (some h) = hit id h

abbrev pub status_unexplained : Status → Option Error → ℕ
status_unexplained status_errored e = nil e
status_unexplained status_ok e = 0
status_unexplained status_retry e = 0

abbrev pub unexplained : Response → ℕ
unexplained r = status_unexplained r.status r.error

module _ (lib : Ipld) where
  abbrev pub job_hit : Str → Job lib → ℕ
  job_hit id (parsing h) = hit id h
  job_hit id (getting h c) = hit id h

  -- In how many places the block `id` is; every result stands for all blocks.
  abbrev pub held : Str → Sending lib → ℕ
  held id s =
      total (hit id) s.queue
      + pending_hit id s.resend
      + total (job_hit id) s.jobs
      + total (response_hit id) s.responses
      + total (hit id) s.again
      + total (hit id) s.taken
      + length s.results

  -- How the goroutines stand that feed and retry.
  pub record Manned (m : Manifest) (s : Sending lib) : Type 0 where
    pub staffed : s.ctx_done ≡ false → s.retrying ≡ true → s.senders ≡ parallelism_of m
    pub over : s.retrying ≡ false → 0 < length s.results
    pub calm : s.retrying ≡ true → s.stops ≡ 0

  pub record Inv (m diff : Manifest) (s : Sending lib) : Type 0 where
    pub few : IsFew lib s
    pub marked : s.prog ≡ mark_all s.taken m (new_completion m diff)
    pub accounted : (id : Str) → Memᴰ id diff.nodes → 0 < held id s
    pub explained : total unexplained s.responses ≡ 0
    pub sound : 0 < total nil s.results → AllTaken m diff s.taken
    pub noticed : is_complete s.prog ≡ true → s.taken ≡ [] ⊎ (0 < s.checks + length s.results)
    pub manned : Manned m s
