-- ===== src/Service/Replies.antt =====
-- dsync/dsync.go: the shape of what ReceiveBlock answers.
use dag.Base.{
  ◌≡◌, inl, inr, refl, ap, Str, Str_discrete, Bool-cases, Option, none, some, Option-cases, Result,
  Error, ok, err, panic, hash_mismatch, sid_not_found, lookup, or_panic, ◌>>=◌,
}
use dag.Ipld.{Ipld}
use dag.Manifest.{Manifest}
use dag.Completion.{mark}
use dag.Session.{
  Session, Response, status_ok, status_errored, status_retry, receive, is_finalized_once,
}
use dag.Service.{
  Settings, Service, receive_block, after_receive, finalize_receive, is_ok, answer, with_session,
}

-- What an answer to the block `hash` says, where `stored` is what the store returned for it.
pub data Said (hash : Str) (stored : Result Str) (res : Response) : Type 0 where
  says_taken : res.status ≡ status_ok → res.hash ≡ hash → stored ≡ ok hash → Said hash stored res
  says_errored :
      (e : Error) → res.status ≡ status_errored → res.error ≡ some e → Said hash stored res
  says_retry : res.status ≡ status_retry → res.hash ≡ hash → Said hash stored res

-- What an outcome with a response says.
abbrev Sayings : {A : Type 0} → Str → Result Str → Result (Response × A) → Type 0
Sayings hash stored panic = Unit
Sayings hash stored (err e) = Unit
Sayings hash stored (ok (res, a)) = Said hash stored res

Sayings-bind :
    {A B : Type 0} (hash : Str) (stored : Result Str) (r : Result (Response × A))
    (next : Response × A → Result (Response × B))
    → Sayings hash stored r
    → ((x : Response × A) → Said hash stored x.0 → Sayings hash stored (next x))
    → Sayings hash stored (r >>= next)
Sayings-bind hash stored panic next said go = tt
Sayings-bind hash stored (err e) next said go = tt
Sayings-bind hash stored (ok x) next said go = go x said

abbrev pub taking : Str → Session → Option Manifest → Result (Response × Session)
taking hash s has = or_panic has >>= λ m. ok (
  record { hash = hash; status = status_ok; error = none },
  record s { prog = mark hash m s.prog },
)

taken_by_session :
    (hash id : Str) (s : Session) (has : Option Manifest)
    → id ≡ hash
    → Sayings hash (ok id) (taking hash s has)
taken_by_session hash id s none same = tt
taken_by_session hash id s (some m) same = says_taken refl refl (ap ok same)

said_by_session :
    (hash : Str) (stored : Result Str) (s : Session) → Sayings hash stored (receive hash stored s)
unfolding receive
said_by_session hash panic s = tt
said_by_session hash (err e) s = says_retry refl refl
said_by_session hash (ok id) s =
    let refused : Response = record {
      hash = hash;
      status = status_errored;
      error = some (hash_mismatch hash id);
    } in
    elim (Str_discrete id hash)
      as (λ d.
        Sayings {A = Session} hash (ok id)
          (elim d [ no _ ↦ ok (refused, s) | yes _ ↦ taking hash s s.info.manifest ])) [
            | no _ ↦ says_errored (hash_mismatch hash id) refl refl
            | yes same ↦ taken_by_session hash id s s.info.manifest same
          ]

Said-at_end :
    (lib : Ipld) (hash : Str) (stored : Result Str) (sess : Session) (res : Response)
    (r : Result (Service × Option Error))
    → Said hash stored res
    → Sayings hash stored (r >>= λ (ds', e). ok (answer lib sess res e, ds'))
Said-at_end lib hash stored sess res panic said = tt
Said-at_end lib hash stored sess res (err e) said = tt
Said-at_end lib hash stored sess res (ok (ds, none)) said = said
Said-at_end lib hash stored sess res (ok (ds, some e)) said = says_errored e refl refl

Said-after :
    (lib : Ipld) (c : Settings) (sid hash : Str) (stored : Result Str) (res : Response)
    (sess : Session) (ds : Service)
    → Said hash stored res
    → Sayings hash stored (after_receive lib c sid res sess ds)
unfolding after_receive
Said-after lib c sid hash stored res sess ds said =
    let (once, sess') = is_finalized_once sess in
    elim (Bool-cases (is_ok res.status)) [
      | inr other ↦ rw (other, after_receive) said
      | inl good ↦ elim (Bool-cases (is_finalized_once sess).0) [
        | inr before ↦ rw (good, after_receive) (rw before said)
        | inl now ↦
            rw (good, after_receive)
              (rw now (
                Said-at_end lib hash stored sess' res
                  (finalize_receive c sess' (with_session sess' sid ds)) said))
      ]
    ]

said_by_service :
    (lib : Ipld) (c : Settings) (sid hash : Str) (stored : Result Str) (ds : Service)
    → Sayings hash stored (receive_block lib c sid hash stored ds)
unfolding receive_block
said_by_service lib c sid hash stored ds =
    elim (Option-cases (lookup Str_discrete sid ds.session_pool)) [
      | inl e ↦ rw (e, receive_block) (says_errored (sid_not_found sid) refl refl)
      | inr (sess, e) ↦
          rw (e, receive_block)
            (Sayings-bind hash stored (receive hash stored sess) _
              (said_by_session hash stored sess)
              (λ (res, sess'). Said-after lib c sid hash stored res sess' ds))
    ]

-- Whatever the session and the service are: a block that ReceiveBlock says it has taken is one that
-- the store took under the identifier that was sent, and the response names that identifier. So does
-- a response that asks for the block again; every other has an error.
pub receive_block-Said :
    (lib : Ipld) (c : Settings) (sid hash : Str) (stored : Result Str) (ds after : Service)
    (res : Response)
    → receive_block lib c sid hash stored ds ≡ ok (res, after)
    → Said hash stored res
receive_block-Said lib c sid hash stored ds after res ran =
    rw ran at (said_by_service lib c sid hash stored ds)
