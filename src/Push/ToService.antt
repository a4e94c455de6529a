-- ===== src/Push/ToService.antt =====
-- A push of blocks to a Dsync: dsync/push.go at one end, ReceiveBlock of dsync/dsync.go at the other.
use dag.Base.{ℕ, ◌≡◌, ◌≢◌, sym, ◌∙◌, Str, Memᴰ, none, Result, ok, subst}
use dag.Ipld.{Ipld, NodeGetter}
use dag.Manifest.{Manifest}
use dag.Session.{Response, status_ok, status_errored, status_retry}
use dag.Service.{Settings, Service, receive_block}
use dag.Service.Replies.{Said, says_taken, says_errored, says_retry, receive_block-Said}
use dag.Push.{started, Run, Sending}
use dag.Push.Inv.{IsFair}
use dag.Push.Correct.{push_nil_sound}

taken_is_no_error : status_ok ≢ status_errored
taken_is_no_error e = cc

retry_is_no_error : status_retry ≢ status_errored
retry_is_no_error e = cc

error_is_not_taken : status_errored ≢ status_ok
error_is_not_taken e = cc

retry_is_not_taken : status_retry ≢ status_ok
retry_is_not_taken e = cc

-- `Stores h stored`: the store of the remote may return `stored` for the bytes of the block `h`.
module _ (remote : Ipld) (c : Settings) (sid : Str) (Stores : Str → Result Str → Type 0) where
  -- The answers of ReceiveBlock for the session `sid`, whatever has become of the service before.
  pub data FromService (h : Str) (r : Response) : Type 0 where
    answers :
        (stored : Result Str) (ds after : Service)
        → Stores h stored
        → receive_block remote c sid h stored ds ≡ ok (r, after)
        → FromService h r

  FromService-Said :
      {h : Str} {r : Response}
      → FromService h r
      → (stored : Result Str) × Stores h stored × Said h stored r
  FromService-Said {h} {r} (answers stored ds after kept ran) =
      (stored, kept, receive_block-Said remote c sid h stored ds after r ran)

  Said-names :
      {h : Str} {stored : Result Str} {r : Response}
      → Said h stored r
      → r.status ≢ status_errored
      → r.hash ≡ h
  Said-names (says_taken s n k) calm = n
  Said-names (says_errored e s w) calm = absurd (calm s)
  Said-names (says_retry s n) calm = n

  Said-explains :
      {h : Str} {stored : Result Str} {r : Response}
      → Said h stored r
      → r.status ≡ status_errored
      → r.error ≢ none
  Said-explains (says_taken s n k) bad = absurd (taken_is_no_error (sym s ∙ bad))
  Said-explains (says_errored e s w) bad = λ nothing. cc
  Said-explains (says_retry s n) bad = absurd (retry_is_no_error (sym s ∙ bad))

  Said-stored :
      {h : Str} {stored : Result Str} {r : Response}
      → Said h stored r
      → r.status ≡ status_ok
      → (stored ≡ ok h) × (r.hash ≡ h)
  Said-stored (says_taken s n k) good = (k, n)
  Said-stored (says_errored e s w) good = absurd (error_is_not_taken (sym s ∙ good))
  Said-stored (says_retry s n) good = absurd (retry_is_not_taken (sym s ∙ good))

  -- ReceiveBlock of a Dsync keeps to the contract that a push leans on, in every state of the service
  -- and whatever its store returns: an answer names the block that was sent, unless it is an error,
  -- and an error comes with its reason.
  pub receive_block-IsFair : IsFair FromService
  receive_block-IsFair = record {
    names = λ h r a. Said-names (FromService-Said a).2;
    explains = λ h r a. Said-explains (FromService-Said a).2;
  }

  -- If a push of `diff` block by block to the session `sid` of a Dsync can return without an error,
  -- then the store of that Dsync took the bytes of every block of the manifest that `diff` asks for,
  -- under the identifier of the block.
  pub push_to_service :
      (lib : Ipld) (ng : NodeGetter lib) (m diff : Manifest) {t : Sending lib} {n : ℕ}
      → Run lib ng m FromService (started lib m diff) n t
      → Memᴰ none t.results
      → (id : Str) → Memᴰ id m.nodes
      → Memᴰ id diff.nodes
      → Stores id (ok id)
  push_to_service lib ng m diff r there id listed lacking =
      let (h, res, answer, good, named) =
        push_nil_sound lib ng m diff FromService receive_block-IsFair r there id listed lacking in
      let (stored, kept, said) = FromService-Said answer in
      let (stored_as, same) = Said-stored said good in
      let own : h ≡ id = sym same ∙ named in
      let taken : Stores h (ok h) = subst (Stores h) stored_as kept in
      subst (λ x. Stores x (ok x)) own taken
