-- ===== src/Service/Overlap.antt =====
-- dsync/dsync.go and dsync/session.go: calls of ReceiveBlock for one session that overlap. A call
-- holds a pointer to the session, so all see its progress and its flag, also when it has left the
-- pool. The loops that write and that read the progress are one step each.
pub mod Calls
pub mod Inv
pub mod Kept
pub mod Once
pub mod Ends
use dag.Base.{
  ℕ, suc, ◌≡◌, Str, Str_discrete, Bool, true, false, List, [], ◌∷◌, ◌++◌, Option, none, some,
  Result, Error, ok, lookup, sid_not_found, Pick,
}
use dag.Ipld.{Ipld}
use dag.Session.{Session, Response, status_errored, receive, complete}
use dag.Service.{Settings, Service, is_ok, answer, finalize_receive}

-- Where a call stands: before Put of the session's ReceiveBlock has returned, before Complete,
-- before the lock of IsFinalizedOnce, and before finalizeReceive.
pub data Call : Type 0 where
  putting : Str → Call
  checking : Response → Call
  locking : Response → Call
  finalizing : Response → Call

-- `sess` is the shared session; `taken` has the blocks that were marked, and `finals` is how often
-- finalizeReceive was called. What the calls returned is in `answers`.
pub record Receiving : Type 0 where
  pub sess : Session
  pub ds : Service
  pub calls : List Call
  pub answers : List Response
  pub taken : List Str
  pub finals : ℕ

abbrev pub started : Session → Service → Receiving
started sess ds = record { sess = sess; ds = ds; calls = []; answers = []; taken = []; finals = 0 }

abbrev pub unknown_sid : Str → Str → Response
unknown_sid sid hash = record {
  hash = hash;
  status = status_errored;
  error = some (sid_not_found sid);
}

-- `Puts hash stored`: to Put of the bytes that are sent for `hash` the store may answer `stored`.
module _ (lib : Ipld) (c : Settings) (sid : Str) (Puts : Str → Result Str → Type 0) where
  pub data Step (s : Receiving) : Receiving → Type 0 where
    -- a call comes in, and finds the session in the pool
    come :
        {sess : Session} (hash : Str)
        → lookup Str_discrete sid s.ds.session_pool ≡ some sess
        → Step s (record s { calls = putting hash ∷ s.calls })
    come_late :
        (hash : Str)
        → lookup Str_discrete sid s.ds.session_pool ≡ none
        → Step s (record s { answers = unknown_sid sid hash ∷ s.answers })
    -- ReceiveBlock of the session returns
    take :
        {hash : Str} {stored : Result Str} {res : Response} {sess' : Session} {rest : List Call}
        → Pick (putting hash) s.calls rest
        → Puts hash stored
        → receive hash stored s.sess ≡ ok (res, sess')
        → is_ok res.status ≡ true
        → Step s
            (record s { sess = sess'; calls = checking res ∷ rest; taken = s.taken ++ hash ∷ [] })
    refuse :
        {hash : Str} {stored : Result Str} {res : Response} {sess' : Session} {rest : List Call}
        → Pick (putting hash) s.calls rest
        → Puts hash stored
        → receive hash stored s.sess ≡ ok (res, sess')
        → is_ok res.status ≡ false
        → Step s (record s { sess = sess'; calls = rest; answers = res ∷ s.answers })
    -- `if !s.Complete()`
    find_complete :
        {res : Response} {rest : List Call}
        → Pick (checking res) s.calls rest
        → complete s.sess ≡ true
        → Step s (record s { calls = locking res ∷ rest })
    find_incomplete :
        {res : Response} {rest : List Call}
        → Pick (checking res) s.calls rest
        → complete s.sess ≡ false
        → Step s (record s { calls = rest; answers = res ∷ s.answers })
    -- what happens under the lock: `if !s.fin`
    lock_first :
        {res : Response} {rest : List Call}
        → Pick (locking res) s.calls rest
        → s.sess.fin ≡ false
        → Step s (record s { sess = record s.sess { fin = true }; calls = finalizing res ∷ rest })
    lock_later :
        {res : Response} {rest : List Call}
        → Pick (locking res) s.calls rest
        → s.sess.fin ≡ true
        → Step s (record s { calls = rest; answers = res ∷ s.answers })
    finalize :
        {res : Response} {ds : Service} {e : Option Error} {rest : List Call}
        → Pick (finalizing res) s.calls rest
        → finalize_receive c s.sess s.ds ≡ ok (ds, e)
        → Step s (record s {
          ds = ds;
          calls = rest;
          answers = answer lib s.sess res e ∷ s.answers;
          finals = suc s.finals;
        })

  -- A run of so many steps.
  pub data Run (s : Receiving) : ℕ → Receiving → Type 0 where
    still : Run s 0 s
    onward : {n : ℕ} {t u : Receiving} → Run s n t → Step t u → Run s (suc n) u
