-- ===== src/Service/Overlap/Ends.antt =====
-- dsync/dsync.go: calls of ReceiveBlock that overlap do not block each other for ever.
use dag.Base.{
  ℕ, suc, ◌+◌, ◌*◌, ◌<◌, ◌≤◌, ◌≡◌, ◌≢◌, inl, inr, refl, sym, ap, ◌∙◌, Str, List, [], ◌∷◌, some,
  Result, panic, get_elem?, arith, total, total-Pick, Pick, first, Bool-cases, subst,
}
use dag.Ipld.{Ipld}
use dag.Manifest.{Manifest}
use dag.Completion.{new_completion}
use dag.Session.{Session, Response, complete}
use dag.Service.{Settings, Service, is_ok}
use dag.Service.Finish.{Agrees}
use dag.Service.Transfer.{Waiting}
use dag.Service.Overlap.{
  Call, putting, checking, locking, finalizing, Receiving, Step, come, come_late, take, refuse,
  find_complete, find_incomplete, lock_first, lock_later, finalize, Run, still, onward,
}
use dag.Service.Overlap.Calls.{receive_returns}
use dag.Service.Overlap.Kept.{finalizes}
use dag.Service.Overlap.Once.{Reached, all_kept}

-- The steps that a call has made, and those that it has left at most.
abbrev pub made : Call → ℕ
made (putting hash) = 1
made (checking res) = 2
made (locking res) = 3
made (finalizing res) = 4

abbrev pub left : Call → ℕ
left (putting hash) = 4
left (checking res) = 3
left (locking res) = 2
left (finalizing res) = 1

abbrev pub count : {A : Type 0} → List A → ℕ
count [] = 0
count (x ∷ xs) = suc (count xs)

abbrev pub effort : Receiving → ℕ
effort s = 5 * count s.answers + total made s.calls

-- Each step adds to the effort.
Step-effort :
    {lib : Ipld} {c : Settings} {sid : Str} {Puts : Str → Result Str → Type 0} {s t : Receiving}
    → Step lib c sid Puts s t
    → suc (effort s) ≤ effort t
Step-effort (come hash e) = omega arith
Step-effort (come_late hash e) = omega arith
Step-effort (take p k ran fine) = omega (arith, total-Pick made p)
Step-effort (refuse p k ran bad) = omega (arith, total-Pick made p)
Step-effort (find_complete p e) = omega (arith, total-Pick made p)
Step-effort (find_incomplete p e) = omega (arith, total-Pick made p)
Step-effort (lock_first p e) = omega (arith, total-Pick made p)
Step-effort (lock_later p e) = omega (arith, total-Pick made p)
Step-effort (finalize p e) = omega (arith, total-Pick made p)

Run-effort :
    {lib : Ipld} {c : Settings} {sid : Str} {Puts : Str → Result Str → Type 0} {s : Receiving}
    {n : ℕ} {t : Receiving}
    → Run lib c sid Puts s n t
    → n ≤ effort t
Run-effort still = omega arith
Run-effort (onward r st) = omega (arith, Step-effort st, Run-effort r)

module _ (lib : Ipld) (c : Settings) (sid : Str) (Puts : Str → Result Str → Type 0) (m : Manifest)
    (root : Str) (rooted : get_elem? m.nodes 0 ≡ some root) (sess : Session) (ds : Service)
    (w : Waiting lib c sid m root rooted sess ds) (agrees : Agrees c sid m root rooted sess)
    (begun : sess.prog ≡ new_completion m sess.diff)
    (store_answers : (hash : Str)
      → (stored : Result Str) × Puts hash stored × (stored ≢ panic)) where
  abbrev Reach : ℕ → Receiving → Type 0
  Reach = Reached lib c sid Puts m root rooted sess ds w agrees begun

  -- From a state on, so many steps at most lead to one where only `rest` is under way, with one more
  -- answer.
  record Leads (n : ℕ) (s : Receiving) (most : ℕ) (rest : List Call) : Type 0 where
    steps : ℕ
    bounded : steps ≤ most
    end : Receiving
    run : Reach (n + steps) end
    calls : end.calls ≡ rest
    answered : count end.answers ≡ suc (count s.answers)

  one_step :
      {n most : ℕ} {s t : Receiving} (rest : List Call)
      → Reach n s
      → Step lib c sid Puts s t
      → 0 < most
      → t.calls ≡ rest
      → count t.answers ≡ suc (count s.answers)
      → Leads n s most rest
  one_step {n} {most} {s} {t} rest r st some_left done said = record {
    steps = 1;
    bounded = some_left;
    end = t;
    run = subst (λ k. Reach k t) (omega arith) (onward r st);
    calls = done;
    answered = said;
  }

  more_steps :
      {n most : ℕ} {s t : Receiving} (rest : List Call)
      → count t.answers ≡ count s.answers
      → Leads (suc n) t most rest
      → Leads n s (suc most) rest
  more_steps {n} rest same l = record {
    steps = suc l.steps;
    bounded = omega (arith, l.bounded);
    end = l.end;
    run = subst (λ k. Reach k l.end) (omega arith) l.run;
    calls = l.calls;
    answered = l.answered ∙ ap suc same;
  }

  at_first :
      {x : Call} {rest : List Call} (s : Receiving) → s.calls ≡ x ∷ rest → Pick x s.calls rest
  at_first {x} {rest} s e = subst (λ calls. Pick x calls rest) (sym e) first

  finalizing_ends :
      {n : ℕ} (s : Receiving) (res : Response) (rest : List Call)
      → Reach n s
      → s.calls ≡ finalizing res ∷ rest
      → Leads n s 1 rest
  finalizing_ends s res rest r e =
      let p = at_first s e in
      one_step rest r
        (finalize p (
          finalizes lib c sid Puts m root rooted sess ds w agrees begun s
            (all_kept lib c sid Puts m root rooted sess ds w agrees begun r) p))
        (omega arith) refl refl

  locking_ends :
      {n : ℕ} (s : Receiving) (res : Response) (rest : List Call)
      → Reach n s
      → s.calls ≡ locking res ∷ rest
      → Leads n s 2 rest
  locking_ends s res rest r e =
      let p = at_first s e in
      elim (Bool-cases s.sess.fin) [
        | inl on ↦ one_step rest r (lock_later p on) (omega arith) refl refl
        | inr off ↦
            more_steps rest refl (finalizing_ends _ res rest (onward r (lock_first p off)) refl)
      ]

  checking_ends :
      {n : ℕ} (s : Receiving) (res : Response) (rest : List Call)
      → Reach n s
      → s.calls ≡ checking res ∷ rest
      → Leads n s 3 rest
  checking_ends s res rest r e =
      let p = at_first s e in
      elim (Bool-cases (complete s.sess)) [
        | inl full ↦
            more_steps rest refl (locking_ends _ res rest (onward r (find_complete p full)) refl)
        | inr more ↦ one_step rest r (find_incomplete p more) (omega arith) refl refl
      ]

  putting_ends :
      {n : ℕ} (s : Receiving) (hash : Str) (rest : List Call)
      → Reach n s
      → s.calls ≡ putting hash ∷ rest
      → Leads n s 4 rest
  putting_ends s hash rest r e =
      let p = at_first s e in
      let inv = all_kept lib c sid Puts m root rooted sess ds w agrees begun r in
      let has = ap (λ (x : Session). x.info.manifest) inv.same ∙ w.has in
      let (stored, puts, calm) = store_answers hash in
      let (res, sess', ran) = receive_returns m hash stored s.sess has calm in
      elim (Bool-cases (is_ok res.status)) [
        | inl fine ↦
            more_steps rest refl (checking_ends _ res rest (onward r (take p puts ran fine)) refl)
        | inr bad ↦ one_step rest r (refuse p puts ran bad) (omega arith) refl refl
      ]

  call_ends :
      {n : ℕ} (s : Receiving) (x : Call) (rest : List Call)
      → Reach n s
      → s.calls ≡ x ∷ rest
      → Leads n s (left x) rest
  call_ends s (putting hash) rest = putting_ends s hash rest
  call_ends s (checking res) rest = checking_ends s res rest
  call_ends s (locking res) rest = locking_ends s res rest
  call_ends s (finalizing res) rest = finalizing_ends s res rest

  all_end :
      (calls : List Call) {n : ℕ} (s : Receiving)
      → Reach n s
      → s.calls ≡ calls
      → (k : ℕ) × (t : Receiving) × Reach (n + k) t
        × (t.calls ≡ [])
        × (k ≤ total left calls)
        × (count t.answers ≡ count s.answers + count calls)
  all_end [] {n} s r e = (0, s, subst (λ k. Reach k s) (omega arith) r, e, omega arith, omega arith)
  all_end (x ∷ rest) {n} s r e =
      let l = call_ends s x rest r e in
      let (k, t, r', idle, le, said) = all_end rest l.end l.run l.calls in
      (
        l.steps + k,
        t,
        subst (λ j. Reach j t) (omega arith) r',
        idle,
        omega (arith, l.bounded, le),
        omega (arith, said, l.answered),
      )

  -- The session waits for blocks, its manifest has a first node, and it has the progress that
  -- NewCompletion gives it; the final check, PutDAGInfo of the info store and the hook for completed
  -- transfers return no error for it, pinning works if it asks for it, and the store has for each block an answer that is no panic.
  -- Calls of ReceiveBlock whose steps are interleaved have made five steps for each answer at most,
  -- and one to four for each call that is under way. From each state, no more than four steps for
  -- each call under way lead to one where all of these have returned, with one answer each.
  pub overlap_ends :
      {n : ℕ} {s : Receiving}
      → Reach n s
      → (n ≤ 5 * count s.answers + total made s.calls)
        × ((k : ℕ) × (t : Receiving) × Reach (n + k) t
            × (t.calls ≡ [])
            × (k ≤ total left s.calls)
            × (count t.answers ≡ count s.answers + count s.calls))
  overlap_ends {n} {s} r = (Run-effort r, all_end s.calls s r refl)
