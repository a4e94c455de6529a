-- ===== src/Service/Transfer.antt =====
-- A transfer, block by block, from its first block to its end.
use mathlib.Core.List.Memᴰ
use dag.Base.{
  ◌≡◌, ◌≢◌, refl, sym, ap, ◌∙◌, inl, inr, Str, Str_discrete, true, false, Bool-cases, List, [], ◌∷◌,
  ◌++◌, Memᴰ, none, some, Result, ok, ◌>>=◌, Dict, lookup, delete, lookup-insert, lookup-delete,
  get_elem?, arith,
}
use dag.Ipld.{Ipld}
use dag.Manifest.{Manifest}
use dag.Completion.{mark, new_completion, is_complete}
use dag.Completion.Laws.{mark_all, mark_all-concat, transfer_complete}
use dag.Session.{Session, Response, status_ok, receive, complete, is_finalized_once}
use dag.Service.Finish.{Agrees, finished, finalize_receive-finished}
use dag.Service.{Settings, Service, with_session, after_receive, receive_block}

absent-cons :
    (last hash : Str) (hs : List Str) → last ≢ hash → ¬ Memᴰ last hs → ¬ Memᴰ last (hash ∷ hs)
absent-cons last hash hs other absent m = elim (Memᴰ.cases_cons m) [
  | inl same ↦ other same
  | inr later ↦ absent later
]

module _ (lib : Ipld) (c : Settings) (sid : Str) (m : Manifest) (root : Str)
    (rooted : get_elem? m.nodes 0 ≡ some root) where
  -- A session that waits for blocks.
  pub record Waiting (sess : Session) (ds : Service) : Type 0 where
    pub pooled : lookup Str_discrete sid ds.session_pool ≡ some sess
    pub named : sess.id ≡ sid
    pub has : sess.info.manifest ≡ some m
    pub unfinished : sess.fin ≡ false
    pub cancel : lookup Str_discrete sid ds.session_cancels ≡ some tt

  abbrev marked : Str → Session → Session
  marked hash sess = record sess { prog = mark hash m sess.prog }

  abbrev stored : Str → Response
  stored hash = record { hash = hash; status = status_ok; error = none }

  receive-marked :
      (hash : Str) (sess : Session)
      → sess.info.manifest ≡ some m
      → receive hash (ok hash) sess ≡ ok (stored hash, marked hash sess)
  unfolding receive
  receive-marked hash sess has = elim (Str_discrete hash hash) [
    | yes _ ↦ ground arith
    | no other ↦ absurd (other refl)
  ]

  -- A block that does not complete the session.
  unfinished_step :
      (hash : Str) (sess : Session) (ds : Service)
      → Waiting sess ds
      → complete (marked hash sess) ≡ false
      → receive_block lib c sid hash (ok hash) ds
        ≡ ok (stored hash, with_session (marked hash sess) sid ds)
  unfolding receive_block after_receive is_finalized_once
  unfinished_step hash sess ds w more =
      let received = receive-marked hash sess w.has in
      let pooled = w.pooled in
      rw (pooled, receive_block) (rw received (rw (more, is_finalized_once) refl))

  -- After such a block the session still waits, with its progress.
  marked-Waiting :
      (hash : Str) (sess : Session) (ds : Service)
      → Waiting sess ds
      → Waiting (marked hash sess) (with_session (marked hash sess) sid ds)
  marked-Waiting hash sess ds w = record {
    pooled = ground (arith, lookup-insert Str_discrete sid sid (marked hash sess) ds.session_pool);
    named = w.named;
    has = w.has;
    unfinished = w.unfinished;
    cancel = w.cancel;
  }

  -- The block that completes the session.
  finished_step :
      (hash : Str) (sess : Session) (ds : Service)
      → Waiting sess ds
      → Agrees c sid m root rooted sess
      → complete (marked hash sess) ≡ true
      → receive_block lib c sid hash (ok hash) ds
        ≡ ok (
          stored hash,
          finished c sid m root rooted sess
              (with_session (record (marked hash sess) { fin = true }) sid ds),
        )
  unfolding receive_block after_receive is_finalized_once
  finished_step hash sess ds w agrees over =
      let last = record (marked hash sess) { fin = true } in
      let ended =
        finalize_receive-finished c sid m root rooted last (with_session last sid ds)
          (record {
            checked = agrees.checked;
            stores = agrees.stores;
            pins = agrees.pins;
            notified = agrees.notified;
          })
          w.named w.has w.cancel in
      rw (w.pooled, receive_block)
        (rw (receive-marked hash sess w.has)
          (rw (over, is_finalized_once) (rw w.unfinished (rw ended refl))))

  -- One block after the other, each of which the block store takes under its hash.
  pub deliver : List Str → Service → Result Service
  deliver [] ds = ok ds
  deliver (hash ∷ hashes) ds = do
    (_res, ds') ← receive_block lib c sid hash (ok hash) ds
    deliver hashes ds'

  abbrev with_pool : Service → Dict Str Session → Service
  with_pool ds pool = record ds { session_pool = pool }

  -- Of a service, only what the pool says of this session has changed.
  abbrev pub OnlyHere : Service → Service → Type 0
  OnlyHere ds ds' =
      (ds' ≡ with_pool ds ds'.session_pool)
      × ((other : Str)
          → other ≢ sid
          → lookup Str_discrete other ds'.session_pool ≡ lookup Str_discrete other ds.session_pool)

  pub with_session-others :
      (sess : Session) (ds : Service) (other : Str)
      → other ≢ sid
      → lookup Str_discrete other (with_session sess sid ds).session_pool
        ≡ lookup Str_discrete other ds.session_pool
  with_session-others sess ds other differ =
      ground (arith, lookup-insert Str_discrete sid other sess ds.session_pool)

  -- The blocks before the last one that is needed.
  deliver-Waiting :
      (last : Str) (hashes : List Str) (sess : Session) (ds : Service)
      → Waiting sess ds
      → ((hs : List Str) → ¬ Memᴰ last hs → is_complete (mark_all hs m sess.prog) ≡ false)
      → ¬ Memᴰ last hashes
      → (ds' : Service) × (deliver hashes ds ≡ ok ds')
        × Waiting (record sess { prog = mark_all hashes m sess.prog }) ds'
        × OnlyHere ds ds'
  unfolding deliver mark_all
  deliver-Waiting last [] sess ds w more absent = (ds, refl, w, (refl, λ other differ. refl))
  deliver-Waiting last (hash ∷ hashes) sess ds w more absent =
      let other : last ≢ hash = λ same. absent (Memᴰ.head same) in
      let first =
        unfinished_step hash sess ds w
          (more (hash ∷ []) (absent-cons last hash [] other Memᴰ.not-nil)) in
      let next = with_session (marked hash sess) sid ds in
      let (ds', rest, w', (same, others)) =
        deliver-Waiting last hashes (marked hash sess) next (marked-Waiting hash sess ds w)
          (λ hs h. more (hash ∷ hs) (absent-cons last hash hs other h))
          (λ h. absent (Memᴰ.tail h)) in
      (
        ds',
        rw (first, deliver) rest,
        w',
        (
          same,
          λ other differ.
              others other differ ∙ with_session-others (marked hash sess) ds other differ,
        ),
      )

  pub removed :
      (pool : Dict Str Session) → lookup Str_discrete sid (delete Str_discrete sid pool) ≡ none
  removed pool = ground (arith, lookup-delete Str_discrete sid sid pool)

  pub kept :
      (pool : Dict Str Session) (other : Str)
      → other ≢ sid
      → lookup Str_discrete other (delete Str_discrete sid pool) ≡ lookup Str_discrete other pool
  kept pool other differ = ground (arith, lookup-delete Str_discrete sid other pool)

  module _ (sess : Session) (ds : Service) (w : Waiting sess ds)
      (agrees : Agrees c sid m root rooted sess)
      (begun : sess.prog ≡ new_completion m sess.diff) where
    missing_last :
        (last : Str)
        → Memᴰ last m.nodes
        → Memᴰ last sess.diff.nodes
        → (hs : List Str) → ¬ Memᴰ last hs
        → is_complete (mark_all hs m sess.prog) ≡ false
    missing_last last listed lacking hs absent =
        elim (Bool-cases (is_complete (mark_all hs m sess.prog))) [
          | inr e ↦ e
          | inl e ↦
              absurd
                (absent ((transfer_complete m sess.diff hs).0 (rw (← begun) e) last listed lacking))
        ]

    -- A session that is in the pool under its name, has a cancel function, has not been finalised and
    -- has the progress that NewCompletion gives it, for a manifest with a first node; the final
    -- check, PutDAGInfo of the info store and the hook for completed transfers return no error for
    -- it, and pinning works if it asks for it. The blocks `hashes` are delivered, each taken by the store under its hash, and `last` is
    -- missing and not among them; with `last` every missing block has come. Then no call panics, and
    -- before the call for `last` the session stays in the pool and only its entry of the service
    -- changes. That call answers ok and finalises the transfer: the session is gone, its context is
    -- cancelled, the info is in the info store, if there is one, under the root, the root is pinned
    -- if the session asks for it, the hook is noted as called, if there is one, and nothing else of
    -- the service changes.
    pub transfer_finalizes :
        (hashes : List Str) (last : Str)
        → Memᴰ last m.nodes
        → Memᴰ last sess.diff.nodes
        → ¬ Memᴰ last hashes
        → ((id : Str) → Memᴰ id m.nodes → Memᴰ id sess.diff.nodes → Memᴰ id (hashes ++ last ∷ []))
        → (before : Service) × (after : Service) × (deliver hashes ds ≡ ok before)
          × OnlyHere ds before
          × (lookup Str_discrete sid before.session_pool ≢ none)
          × (receive_block lib c sid last (ok last) before ≡ ok (stored last, after))
          × (lookup Str_discrete sid after.session_pool ≡ none)
          × OnlyHere (finished c sid m root rooted sess ds) after
    transfer_finalizes hashes last listed lacking absent all =
        let (before, ran, w', (same, others)) =
          deliver-Waiting last hashes sess ds w (missing_last last listed lacking) absent in
        let sess' = record sess { prog = mark_all hashes m sess.prog } in
        let full : complete (marked last sess') ≡ true =
          rw⁻¹ (mark_all-concat hashes last m sess.prog)
            (rw begun ((transfer_complete m sess.diff (hashes ++ last ∷ [])).1 all)) in
        let over = record (marked last sess') { fin = true } in
        let closing = with_session over sid before in
        let agrees' : Agrees c sid m root rooted sess' = record {
          checked = agrees.checked;
          stores = agrees.stores;
          pins = agrees.pins;
          notified = agrees.notified;
        } in
        (
          before,
          finished c sid m root rooted sess' closing,
          ran,
          (same, others),
          (λ e. cc (sym e ∙ w'.pooled)),
          finished_step last sess' before w' agrees' full,
          removed closing.session_pool,
          (
            ap
                (λ x.
                  with_pool (finished c sid m root rooted sess x)
                    (delete Str_discrete sid closing.session_pool))
                same,
            λ other differ.
                kept closing.session_pool other differ
                ∙ with_session-others over before other differ
                ∙ others other differ
                ∙ sym (kept ds.session_pool other differ),
          ),
        )
