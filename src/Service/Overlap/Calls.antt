-- ===== src/Service/Overlap/Calls.antt =====
-- What the calls of one session hold, and what ReceiveBlock does to it.
use dag.Base.{
  ℕ, ◌≡◌, ◌≢◌, inl, refl, sym, ap, ◌∙◌, Str, Str_discrete, true, false, List, [], ◌∷◌, ◌++◌, Memᴰ,
  Memᴰ-concat, none, some, Result, ok, err, panic, hash_mismatch,
}
use dag.Manifest.{Manifest}
use dag.Completion.{mark}
use dag.Session.{Session, Response, status_ok, status_errored, receive}
use dag.Service.{is_ok}
use dag.Service.Replies.{taking}
use dag.Service.Overlap.{Call, putting, checking, locking, finalizing}

-- Calls that have yet to look at the progress or at the flag.
abbrev pub noticing : Call → ℕ
noticing (putting hash) = 0
noticing (checking res) = 1
noticing (locking res) = 1
noticing (finalizing res) = 0

-- Calls that have seen the whole transfer.
abbrev pub convinced : Call → ℕ
convinced (putting hash) = 0
convinced (checking res) = 0
convinced (locking res) = 1
convinced (finalizing res) = 1

abbrev pub closing : Call → ℕ
closing (putting hash) = 0
closing (checking res) = 0
closing (locking res) = 0
closing (finalizing res) = 1

-- A response that says that a block was taken names one that was.
abbrev pub IsHonest : List Str → Response → Type 0
IsHonest taken res = res.status ≡ status_ok → Memᴰ res.hash taken

abbrev pub IsHonestCall : List Str → Call → Type 0
IsHonestCall taken (putting hash) = Unit
IsHonestCall taken (checking res) = IsHonest taken res
IsHonestCall taken (locking res) = IsHonest taken res
IsHonestCall taken (finalizing res) = IsHonest taken res

pub IsHonest-concat :
    (taken : List Str) (h : Str) (res : Response)
    → IsHonest taken res
    → IsHonest (taken ++ h ∷ []) res
IsHonest-concat taken h res honest good = (Memᴰ-concat res.hash h taken).1 (inl (honest good))

pub IsHonestCall-concat :
    (taken : List Str) (h : Str) (x : Call)
    → IsHonestCall taken x
    → IsHonestCall (taken ++ h ∷ []) x
IsHonestCall-concat taken h (putting hash) honest = tt
IsHonestCall-concat taken h (checking res) honest = IsHonest-concat taken h res honest
IsHonestCall-concat taken h (locking res) honest = IsHonest-concat taken h res honest
IsHonestCall-concat taken h (finalizing res) honest = IsHonest-concat taken h res honest

-- What ReceiveBlock of a session does to it, and what it says.
pub data Received (m : Manifest) (hash : Str) (stored : Result Str) (res : Response)
    (s s' : Session) : Type 0 where
  received :
      stored ≡ ok hash
      → res.status ≡ status_ok
      → res.hash ≡ hash
      → s' ≡ record s { prog = mark hash m s.prog }
      → Received m hash stored res s s'
  turned_away : is_ok res.status ≡ false → s' ≡ s → Received m hash stored res s s'

abbrev Effects : Manifest → Str → Result Str → Session → Result (Response × Session) → Type 0
Effects m hash stored s panic = Unit
Effects m hash stored s (err e) = Unit
Effects m hash stored s (ok (res, s')) = Received m hash stored res s s'

receive-Effects :
    (m : Manifest) (hash : Str) (stored : Result Str) (s : Session)
    → s.info.manifest ≡ some m
    → Effects m hash stored s (receive hash stored s)
unfolding receive
receive-Effects m hash panic s has = tt
receive-Effects m hash (err why) s has = turned_away refl refl
receive-Effects m hash (ok id) s has =
    let refused : Response = record {
      hash = hash;
      status = status_errored;
      error = some (hash_mismatch hash id);
    } in
    elim (Str_discrete id hash)
      as (λ d.
        Effects m hash (ok id) s
          (elim d [ no _ ↦ ok (refused, s) | yes _ ↦ taking hash s s.info.manifest ])) [
            | no _ ↦ turned_away refl refl
            | yes same ↦ rw has (received (ap ok same) refl refl refl)
          ]

pub receive-Received :
    (m : Manifest) (hash : Str) (stored : Result Str) (res : Response) (s s' : Session)
    → s.info.manifest ≡ some m
    → receive hash stored s ≡ ok (res, s')
    → Received m hash stored res s s'
receive-Received m hash stored res s s' has ran = rw ran at (receive-Effects m hash stored s has)

-- The two ways in which it can return.
pub took :
    {m : Manifest} {hash : Str} {stored : Result Str} {res : Response} {s s' : Session}
    → Received m hash stored res s s'
    → is_ok res.status ≡ true
    → (stored ≡ ok hash) × (res.hash ≡ hash) × (s' ≡ record s { prog = mark hash m s.prog })
took (received k good n e) fine = (k, n, e)
took (turned_away bad e) fine = absurd (cc (sym bad ∙ fine))

pub turned :
    {m : Manifest} {hash : Str} {stored : Result Str} {res : Response} {s s' : Session}
    → Received m hash stored res s s'
    → is_ok res.status ≡ false
    → (s' ≡ s) × (res.status ≢ status_ok)
turned (received k good n e) bad = absurd (cc (rw good at bad))
turned (turned_away bad e) _ = (e, λ good. cc (rw good at bad))

-- With a manifest, ReceiveBlock panics only where the store does.
pub receive_returns :
    (m : Manifest) (hash : Str) (stored : Result Str) (s : Session)
    → s.info.manifest ≡ some m
    → stored ≢ panic
    → (res : Response) × (s' : Session) × (receive hash stored s ≡ ok (res, s'))
unfolding receive
receive_returns m hash panic s has calm = absurd (calm refl)
receive_returns m hash (err why) s has calm = (_, _, refl)
receive_returns m hash (ok id) s has calm =
    elim (Str_discrete id hash)
      as (λ d.
        (res : Response) × (s' : Session) × (elim d [
          | no _ ↦ ok (
            record { hash = hash; status = status_errored; error = some (hash_mismatch hash id) },
            s,
          )
          | yes _ ↦ taking hash s s.info.manifest
        ]
          ≡ ok (res, s'))) [
            | no _ ↦ (_, _, refl)
            | yes same ↦ (
              record { hash = hash; status = status_ok; error = none },
              record s { prog = mark hash m s.prog },
              rw has refl,
            )
          ]
