-- ===== src/Push/Kept.antt =====
-- Each step of a push keeps the invariant.
use dag.Base.{
  ℕ, ◌+◌, ◌<◌, ◌≤◌, ◌≡◌, ◌≢◌, ◌⊎◌, inl, inr, refl, sym, ap, ◌∙◌, Str, true, [], length, Option,
  none, some, Error, arith, total, total-Pick, total-concat, total_pos,
}
use dag.Ipld.{Ipld, NodeGetter}
use dag.Manifest.{Manifest}
use dag.Completion.{mark, new_completion, is_complete}
use dag.Completion.Laws.{mark_all, mark_all-concat, transfer_complete}
use dag.Completion.Taken.{hit, hit_self, nil, AllTaken, AllTaken-concat}
use dag.Session.{Response, Status, status_ok, status_errored, status_retry}
use dag.Push.{
  Sending, started, Step, feed, feed_again, parse, not_parsed, not_found, send, handle_ok,
  handle_errored, handle_retry, finished, unfinished, retry, give_up, stop, cancel, leave,
}
use dag.Push.Measure.{Step-IsFew}
use dag.Push.Inv.{
  IsFair, status_hit, response_hit, status_unexplained, unexplained, job_hit, held, Manned, Inv,
}

hit-le : (id h : Str) → hit id h ≤ 1
hit-le id h = ground arith

status_hit-le :
    (st : Status) (n k : ℕ) → n ≤ 1 → (st ≢ status_errored → k ≡ n) → n ≤ status_hit st k
status_hit-le status_errored n k small same = small
status_hit-le status_ok n k small same = omega (arith, same (λ e. cc))
status_hit-le status_retry n k small same = omega (arith, same (λ e. cc))

status_unexplained-eq_zero :
    (st : Status) (e : Option Error)
    → (st ≡ status_errored → e ≢ none)
    → status_unexplained st e ≡ 0
status_unexplained-eq_zero status_errored none h = absurd (h refl refl)
status_unexplained-eq_zero status_errored (some e) h = refl
status_unexplained-eq_zero status_ok e h = refl
status_unexplained-eq_zero status_retry e h = refl

module _ (lib : Ipld) (ng : NodeGetter lib) (m diff : Manifest) (Answers : Str → Response → Type 0)
    (fair : IsFair Answers) where
  send-hit : (id h : Str) (r : Response) → Answers h r → hit id h ≤ response_hit id r
  send-hit id h r a =
      status_hit-le r.status (hit id h) (hit id r.hash) (hit-le id h)
        (λ fine. ap (hit id) (fair.names h r a fine))

  Step-held :
      {s t : Sending lib} (id : Str) → Step lib ng m Answers s t → held lib id s ≤ held lib id t
  Step-held id (feed e k) = rw e (omega arith)
  Step-held id (feed_again e k) = rw e (omega arith)
  Step-held id (parse p e) = omega (arith, total-Pick (job_hit lib id) p)
  Step-held id (not_parsed p e) = omega (arith, total-Pick (job_hit lib id) p)
  Step-held id (not_found {h} p e) = ground (arith, total-Pick (job_hit lib id) p)
  Step-held id (send {h} {r} p e a) =
      omega (arith, total-Pick (job_hit lib id) p, send-hit id h r a)
  Step-held {s} id (handle_ok {r} p e) =
      ground (arith, total-Pick (response_hit id) p, total-concat (hit id) s.taken r.hash)
  Step-held id (handle_errored p e) = ground (arith, total-Pick (response_hit id) p)
  Step-held id (handle_retry p e) = ground (arith, total-Pick (response_hit id) p)
  Step-held id (finished c e) = omega arith
  Step-held id (unfinished c e) = omega arith
  Step-held id (retry on e p more) = rw e (omega (arith, total-Pick (hit id) p))
  Step-held id (give_up on e p last) = ground (arith, total-Pick (hit id) p)
  Step-held id (stop a b) = omega arith
  Step-held id (cancel e) = omega arith
  Step-held id (leave e k) = omega arith

  Step-explained :
      {s t : Sending lib}
      → Step lib ng m Answers s t
      → total unexplained s.responses ≡ 0
      → total unexplained t.responses ≡ 0
  Step-explained (send {h} {r} p e a) h0 =
      omega (arith, status_unexplained-eq_zero r.status r.error (fair.explains h r a))
  Step-explained (handle_ok p e) h0 = omega (arith, total-Pick unexplained p)
  Step-explained (handle_errored p e) h0 = omega (arith, total-Pick unexplained p)
  Step-explained (handle_retry p e) h0 = omega (arith, total-Pick unexplained p)
  Step-explained (feed e k) h0 = h0
  Step-explained (feed_again e k) h0 = h0
  Step-explained (parse p e) h0 = h0
  Step-explained (not_parsed p e) h0 = omega arith
  Step-explained (not_found p e) h0 = omega arith
  Step-explained (finished c e) h0 = h0
  Step-explained (unfinished c e) h0 = h0
  Step-explained (retry on e p more) h0 = h0
  Step-explained (give_up on e p last) h0 = h0
  Step-explained (stop a b) h0 = h0
  Step-explained (cancel e) h0 = h0
  Step-explained (leave e k) h0 = h0

  Step-marked :
      {s t : Sending lib}
      → Step lib ng m Answers s t
      → s.prog ≡ mark_all s.taken m (new_completion m diff)
      → t.prog ≡ mark_all t.taken m (new_completion m diff)
  Step-marked {s} (handle_ok {r} p e) h =
      ap (mark r.hash m) h ∙ sym (mark_all-concat s.taken r.hash m (new_completion m diff))
  Step-marked (send p e a) h = h
  Step-marked (handle_errored p e) h = h
  Step-marked (handle_retry p e) h = h
  Step-marked (feed e k) h = h
  Step-marked (feed_again e k) h = h
  Step-marked (parse p e) h = h
  Step-marked (not_parsed p e) h = h
  Step-marked (not_found p e) h = h
  Step-marked (finished c e) h = h
  Step-marked (unfinished c e) h = h
  Step-marked (retry on e p more) h = h
  Step-marked (give_up on e p last) h = h
  Step-marked (stop a b) h = h
  Step-marked (cancel e) h = h
  Step-marked (leave e k) h = h

  Step-sound :
      {s t : Sending lib}
      → Step lib ng m Answers s t
      → Inv lib m diff s
      → 0 < total nil t.results
      → AllTaken m diff t.taken
  Step-sound {s} (handle_ok {r} p e) inv some_nil =
      AllTaken-concat m diff s.taken r.hash (inv.sound some_nil)
  Step-sound {s} (finished c e) inv some_nil =
      (transfer_complete m diff s.taken).0 (rw (← inv.marked) e)
  Step-sound {s} (handle_errored {r} p e) inv some_nil =
      let none_bad = total-Pick unexplained p in
      let told : status_unexplained r.status r.error ≡ 0 = omega (arith, inv.explained, none_bad) in
      inv.sound (omega (arith, some_nil, rw e at told))
  Step-sound (give_up on e p last) inv some_nil = inv.sound (omega (arith, some_nil))
  Step-sound (send p e a) inv some_nil = inv.sound some_nil
  Step-sound (handle_retry p e) inv some_nil = inv.sound some_nil
  Step-sound (feed e k) inv some_nil = inv.sound some_nil
  Step-sound (feed_again e k) inv some_nil = inv.sound some_nil
  Step-sound (parse p e) inv some_nil = inv.sound some_nil
  Step-sound (not_parsed p e) inv some_nil = inv.sound some_nil
  Step-sound (not_found p e) inv some_nil = inv.sound some_nil
  Step-sound (unfinished c e) inv some_nil = inv.sound some_nil
  Step-sound (retry on e p more) inv some_nil = inv.sound some_nil
  Step-sound (stop a b) inv some_nil = inv.sound some_nil
  Step-sound (cancel e) inv some_nil = inv.sound some_nil
  Step-sound (leave e k) inv some_nil = inv.sound some_nil

  abbrev Noticed : Sending lib → Type 0
  Noticed s = is_complete s.prog ≡ true → s.taken ≡ [] ⊎ (0 < s.checks + length s.results)

  Step-Noticed : {s t : Sending lib} → Step lib ng m Answers s t → Noticed s → Noticed t
  Step-Noticed (handle_ok p e) h full = inr (omega arith)
  Step-Noticed (finished c e) h full = inr (omega arith)
  Step-Noticed (unfinished c e) h full = absurd (cc (sym e ∙ full))
  Step-Noticed (handle_errored p e) h full = inr (omega arith)
  Step-Noticed (give_up on e p last) h full = inr (omega arith)
  Step-Noticed (send p e a) h full = h full
  Step-Noticed (handle_retry p e) h full = h full
  Step-Noticed (feed e k) h full = h full
  Step-Noticed (feed_again e k) h full = h full
  Step-Noticed (parse p e) h full = h full
  Step-Noticed (not_parsed p e) h full = h full
  Step-Noticed (not_found p e) h full = h full
  Step-Noticed (retry on e p more) h full = h full
  Step-Noticed (stop a b) h full = h full
  Step-Noticed (cancel e) h full = h full
  Step-Noticed (leave e k) h full = h full

  Step-Manned : {s t : Sending lib} → Step lib ng m Answers s t → Manned lib m s → Manned lib m t
  Step-Manned (finished c e) man = record {
    staffed = man.staffed;
    over = λ off. omega arith;
    calm = man.calm;
  }
  Step-Manned (handle_errored p e) man = record {
    staffed = man.staffed;
    over = λ off. omega arith;
    calm = man.calm;
  }
  Step-Manned (give_up on e p last) man = record {
    staffed = λ live on'. cc;
    over = λ off. omega arith;
    calm = λ on'. cc;
  }
  Step-Manned (stop a b) man = record {
    staffed = λ live on. absurd (omega (arith, man.calm on, a));
    over = man.over;
    calm = λ on. absurd (omega (arith, man.calm on, a));
  }
  Step-Manned (cancel e) man = record { staffed = λ live. cc; over = man.over; calm = man.calm }
  Step-Manned (leave e k) man = record {
    staffed = λ live. absurd (cc (sym live ∙ e));
    over = man.over;
    calm = man.calm;
  }
  Step-Manned (handle_ok p e) man = record {
    staffed = man.staffed;
    over = man.over;
    calm = man.calm;
  }
  Step-Manned (send p e a) man = record { staffed = man.staffed; over = man.over; calm = man.calm }
  Step-Manned (handle_retry p e) man = record {
    staffed = man.staffed;
    over = man.over;
    calm = man.calm;
  }
  Step-Manned (feed e k) man = record { staffed = man.staffed; over = man.over; calm = man.calm }
  Step-Manned (feed_again e k) man = record {
    staffed = man.staffed;
    over = man.over;
    calm = man.calm;
  }
  Step-Manned (parse p e) man = record { staffed = man.staffed; over = man.over; calm = man.calm }
  Step-Manned (not_parsed p e) man = record {
    staffed = man.staffed;
    over = man.over;
    calm = man.calm;
  }
  Step-Manned (not_found p e) man = record {
    staffed = man.staffed;
    over = man.over;
    calm = man.calm;
  }
  Step-Manned (unfinished c e) man = record {
    staffed = man.staffed;
    over = man.over;
    calm = man.calm;
  }
  Step-Manned (retry on e p more) man = record {
    staffed = man.staffed;
    over = man.over;
    calm = man.calm;
  }

  pub Step-Inv :
      {s t : Sending lib} → Step lib ng m Answers s t → Inv lib m diff s → Inv lib m diff t
  Step-Inv st inv = record {
    few = Step-IsFew lib ng m Answers st inv.few;
    marked = Step-marked st inv.marked;
    accounted = λ id lacking. omega (arith, inv.accounted id lacking, Step-held id st);
    explained = Step-explained st inv.explained;
    sound = Step-sound st inv;
    noticed = Step-Noticed st inv.noticed;
    manned = Step-Manned st inv.manned;
  }

  pub started-Inv : Inv lib m diff (started lib m diff)
  unfolding mark_all
  started-Inv = record {
    few = λ on. omega arith;
    marked = refl;
    accounted = λ id lacking. omega (arith, total_pos (hit id) lacking (hit_self id));
    explained = refl;
    sound = λ some_nil. absurd (omega (arith, some_nil));
    noticed = λ full. inl refl;
    manned = record { staffed = λ live on. refl; over = λ off. cc; calm = λ on. refl };
  }
