-- ===== src/Pull/Inv.antt =====
-- What holds in each state of a pull.
use mathlib.Core.List.Memᴰ
use dag.Base.{
  ℕ, ◌+◌, ◌<◌, ◌≤◌, ◌≡◌, ◌⊎◌, inl, inr, refl, sym, ap, ◌∙◌, Str, true, [], Memᴰ, Memᴰ-concat,
  length, Result, ok, arith, total, total-Pick, total-concat, total_pos, Pick-Memᴰ, Pick-rest,
}
use dag.Manifest.{Manifest}
use dag.Completion.{mark, new_completion, is_complete}
use dag.Completion.Laws.{mark_all, mark_all-concat, transfer_complete}
use dag.Completion.Taken.{hit, hit_self, nil, AllTaken, AllTaken-concat}
use dag.Pull.{
  BlockResponse, Pulling, started, pullers_of, Step, ask, get, refused, put_failed, mismatched,
  store, finished, unfinished, cancel, leave,
}

abbrev pub response_hit : Str → BlockResponse → ℕ
response_hit id r = hit id r.hash

-- In how many places the block `id` is; every result stands for all blocks.
abbrev pub held : Str → Pulling → ℕ
held id s =
    total (hit id) s.queue
    + total (hit id) s.jobs
    + total (response_hit id) s.responses
    + total (hit id) s.taken
    + length s.results

-- What a nil on errCh can mean.
abbrev pub Excused : Manifest → Manifest → Pulling → Type 0
Excused m diff s = AllTaken m diff s.taken ⊎ ((0 < s.failures) ⊎ (s.ctx_done ≡ true))

module _ (m diff : Manifest) (Serves Puts : Str → Result Str → Type 0) where
  -- The remote served bytes for the block `id`, and the store took them under this identifier.
  abbrev pub Stored : Str → Type 0
  Stored id = (raw : Str) × Serves id (ok raw) × Puts raw (ok id)

  pub record Inv (s : Pulling) : Type 0 where
    pub marked : s.prog ≡ mark_all s.taken m (new_completion m diff)
    pub accounted : (id : Str) → Memᴰ id diff.nodes → 0 < held id s
    pub served : (r : BlockResponse) → Memᴰ r s.responses → Serves r.hash r.raw
    pub stored : (id : Str) → Memᴰ id s.taken → Stored id
    pub sound : 0 < total nil s.results → Excused m diff s
    pub noticed : is_complete s.prog ≡ true → s.taken ≡ [] ⊎ (0 < s.checks + length s.results)
    pub staffed : s.pullers ≡ pullers_of diff

  Step-held : {s t : Pulling} (id : Str) → Step m Serves Puts s t → held id s ≤ held id t
  Step-held id (ask e k) = rw e (omega arith)
  Step-held id (get p a) = omega (arith, total-Pick (hit id) p)
  Step-held id (refused p e) = ground (arith, total-Pick (response_hit id) p)
  Step-held id (put_failed p e f) = ground (arith, total-Pick (response_hit id) p)
  Step-held id (mismatched p e f d) = ground (arith, total-Pick (response_hit id) p)
  Step-held {s} id (store {r} p e f) =
      omega (arith, total-Pick (response_hit id) p, total-concat (hit id) s.taken r.hash)
  Step-held id (finished c e) = omega arith
  Step-held id (unfinished c e) = omega arith
  Step-held id (cancel e) = omega arith
  Step-held id (leave e f) = omega arith

  Step-marked :
      {s t : Pulling}
      → Step m Serves Puts s t
      → s.prog ≡ mark_all s.taken m (new_completion m diff)
      → t.prog ≡ mark_all t.taken m (new_completion m diff)
  Step-marked {s} (store {r} p e f) h =
      ap (mark r.hash m) h ∙ sym (mark_all-concat s.taken r.hash m (new_completion m diff))
  Step-marked (ask e k) h = h
  Step-marked (get p a) h = h
  Step-marked (refused p e) h = h
  Step-marked (put_failed p e f) h = h
  Step-marked (mismatched p e f d) h = h
  Step-marked (finished c e) h = h
  Step-marked (unfinished c e) h = h
  Step-marked (cancel e) h = h
  Step-marked (leave e f) h = h

  Step-served :
      {s t : Pulling}
      → Step m Serves Puts s t
      → Inv s
      → (q : BlockResponse) → Memᴰ q t.responses
      → Serves q.hash q.raw
  Step-served (get p a) inv q there = elim (Memᴰ.cases_cons there) [
    | inl same ↦ rw same a
    | inr old ↦ inv.served q old
  ]
  Step-served (refused p e) inv q there = inv.served q (Pick-rest p there)
  Step-served (put_failed p e f) inv q there = inv.served q (Pick-rest p there)
  Step-served (mismatched p e f d) inv q there = inv.served q (Pick-rest p there)
  Step-served (store p e f) inv q there = inv.served q (Pick-rest p there)
  Step-served (ask e k) inv q there = inv.served q there
  Step-served (finished c e) inv q there = inv.served q there
  Step-served (unfinished c e) inv q there = inv.served q there
  Step-served (cancel e) inv q there = inv.served q there
  Step-served (leave e f) inv q there = inv.served q there

  Step-stored :
      {s t : Pulling} → Step m Serves Puts s t → Inv s → (id : Str) → Memᴰ id t.taken → Stored id
  Step-stored {s} (store {r} {raw} p e f) inv id there =
      elim ((Memᴰ-concat id r.hash s.taken).0 there) [
        | inl old ↦ inv.stored id old
        | inr new ↦
            let serves : Serves r.hash (ok raw) = rw e at (inv.served r (Pick-Memᴰ p)) in
            rw new (raw, serves, f)
      ]
  Step-stored (get p a) inv id there = inv.stored id there
  Step-stored (refused p e) inv id there = inv.stored id there
  Step-stored (put_failed p e f) inv id there = inv.stored id there
  Step-stored (mismatched p e f d) inv id there = inv.stored id there
  Step-stored (ask e k) inv id there = inv.stored id there
  Step-stored (finished c e) inv id there = inv.stored id there
  Step-stored (unfinished c e) inv id there = inv.stored id there
  Step-stored (cancel e) inv id there = inv.stored id there
  Step-stored (leave e f) inv id there = inv.stored id there

  Step-sound :
      {s t : Pulling} → Step m Serves Puts s t → Inv s → 0 < total nil t.results → Excused m diff t
  Step-sound {s} (store {r} p e f) inv some_nil = elim (inv.sound some_nil) [
    | inl all ↦ inl (AllTaken-concat m diff s.taken r.hash all)
    | inr other ↦ inr other
  ]
  Step-sound (put_failed p e f) inv some_nil = inr (inl (omega arith))
  Step-sound {s} (finished c e) inv some_nil =
      inl ((transfer_complete m diff s.taken).0 (rw (← inv.marked) e))
  Step-sound (cancel e) inv some_nil = inr (inr refl)
  Step-sound (leave e f) inv some_nil = inr (inr e)
  Step-sound (get p a) inv some_nil = inv.sound some_nil
  Step-sound (refused p e) inv some_nil = inv.sound (omega (arith, some_nil))
  Step-sound (mismatched p e f d) inv some_nil = inv.sound (omega (arith, some_nil))
  Step-sound (ask e k) inv some_nil = inv.sound some_nil
  Step-sound (unfinished c e) inv some_nil = inv.sound some_nil

  abbrev Noticed : Pulling → Type 0
  Noticed s = is_complete s.prog ≡ true → s.taken ≡ [] ⊎ (0 < s.checks + length s.results)

  Step-Noticed : {s t : Pulling} → Step m Serves Puts s t → Noticed s → Noticed t
  Step-Noticed (store p e f) h full = inr (omega arith)
  Step-Noticed (finished c e) h full = inr (omega arith)
  Step-Noticed (unfinished c e) h full = absurd (cc (sym e ∙ full))
  Step-Noticed (refused p e) h full = inr (omega arith)
  Step-Noticed (put_failed p e f) h full = inr (omega arith)
  Step-Noticed (mismatched p e f d) h full = inr (omega arith)
  Step-Noticed (leave e f) h full = inr (omega arith)
  Step-Noticed (get p a) h full = h full
  Step-Noticed (ask e k) h full = h full
  Step-Noticed (cancel e) h full = h full

  Step-staffed : {s t : Pulling} → Step m Serves Puts s t → t.pullers ≡ s.pullers
  Step-staffed (store p e f) = refl
  Step-staffed (finished c e) = refl
  Step-staffed (unfinished c e) = refl
  Step-staffed (refused p e) = refl
  Step-staffed (put_failed p e f) = refl
  Step-staffed (mismatched p e f d) = refl
  Step-staffed (leave e f) = refl
  Step-staffed (get p a) = refl
  Step-staffed (ask e k) = refl
  Step-staffed (cancel e) = refl

  pub Step-Inv : {s t : Pulling} → Step m Serves Puts s t → Inv s → Inv t
  Step-Inv st inv = record {
    marked = Step-marked st inv.marked;
    accounted = λ id lacking. omega (arith, inv.accounted id lacking, Step-held id st);
    served = Step-served st inv;
    stored = Step-stored st inv;
    sound = Step-sound st inv;
    noticed = Step-Noticed st inv.noticed;
    staffed = Step-staffed st ∙ inv.staffed;
  }

  pub started-Inv : Inv (started m diff)
  unfolding mark_all
  started-Inv = record {
    marked = refl;
    accounted = λ id lacking. omega (arith, total_pos (hit id) lacking (hit_self id));
    served = λ r there. absurd (Memᴰ.not-nil there);
    stored = λ id there. absurd (Memᴰ.not-nil there);
    sound = λ some_nil. absurd (omega (arith, some_nil));
    noticed = λ full. inl refl;
    staffed = refl;
  }
