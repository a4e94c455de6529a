-- ===== src/SubDag/Rounds.antt =====
-- The loop of convert keeps the invariant, and meets no panic.
use dag.Base.{
  ℕ, suc, ◌<◌, ◌+◌, ◌≡◌, refl, sym, ap, ◌∙◌, inl, inr, ◌⊎◌, List, [], ◌∷◌, Memᴰ, Memᴰ-concat, none,
  some, Option-cases, Bool-cases, lookup, length, length-concat, get_elem?, get_elem?-of_lt,
  get_elem?-Memᴰ, get_elem?-lt, ℕ_discrete, ok, arith, leb, ltb, subst,
}
use dag.SubDag.{Source, SubState, converted, follow, take_link, next_parent, behind, round, rounds}
use dag.SubDag.Inv.{down, IsWellFormed, Origin, Known, Inv}
use dag.SubDag.Added.{ensure-Adds}

module _ (s : Source) (root : ℕ) (g : SubState) (inv : Inv s root g) where
  converted-Origin : (i : ℕ) → Known g i → Origin g (converted i g) i
  converted-Origin i k = elim (Option-cases (lookup ℕ_discrete i g.conversion)) [
    | inl e ↦ absurd (k e)
    | inr (n, e) ↦ rw (e, converted) (inv.kept.indexed i n e)
  ]

  module _ (from to : ℕ) (link : Memᴰ (from, to) s.prev.links) (known_from : Known g from)
      (known_to : Known g to) where
    follow-linked :
        (a b : ℕ)
        → Memᴰ (a, b) (follow s from to g).links
        → (i : ℕ) × (k : ℕ) × Memᴰ (i, k) s.prev.links × Origin g a i × Origin g b k
    follow-linked a b m =
        elim ((Memᴰ-concat (a, b) (converted from g, converted to g) g.links).0 m) [
          | inl old ↦ inv.kept.linked a b old
          | inr new ↦ (
            from,
            to,
            link,
            subst (λ k. Origin g k from) (sym (ap (λ p. p.0) new))
                (converted-Origin from known_from),
            subst (λ k. Origin g k to) (sym (ap (λ p. p.1) new)) (converted-Origin to known_to),
          )
        ]

    follow-parented : (p : ℕ) → Memᴰ p (follow s from to g).parents → Known g p
    follow-parented p m = elim (Bool-cases (leb to s.last_branch)) [
      | inr e ↦ inv.parented p (rw e at m)
      | inl e ↦ elim ((Memᴰ-concat p to g.parents).0 (rw e at m)) [
        | inl old ↦ inv.parented p old
        | inr new ↦ rw new known_to
      ]
    ]

    follow-current : g.current < length (follow s from to g).parents
    follow-current = elim (Bool-cases (leb to s.last_branch)) [
      | inr e ↦ rw e inv.current_in
      | inl e ↦ rw e (omega (arith, length-concat g.parents to, inv.current_in))
    ]

    follow-Inv : Inv s root (follow s from to g)
    follow-Inv = record {
      kept = record {
        counted = inv.kept.counted;
        indexed = inv.kept.indexed;
        placed = inv.kept.placed;
        named = inv.kept.named;
        sized = inv.kept.sized;
        labelled = inv.kept.labelled;
        reached = inv.kept.reached;
        linked = follow-linked;
      };
      rooted = inv.rooted;
      parented = follow-parented;
      current_in = follow-current;
    }

module _ (s : Source) (wf : IsWellFormed s) (root : ℕ) where
  take_link-Inv :
      (from to : ℕ) (g : SubState)
      → Inv s root g
      → Memᴰ (from, to) s.prev.links
      → Known g from
      → (h : SubState) × (take_link s from to g ≡ ok h) × Inv s root h
  unfolding take_link
  take_link-Inv from to g inv link known =
      let inside = wf.links_in (from, to) link in
      let (a, ran, inv_a, known_a, _) =
        ensure-Adds s wf root g inv from inside.0 (inv.kept.reached from known) in
      let (b, ran', inv_b, known_b, grown) =
        ensure-Adds s wf root a inv_a to inside.1 (down (inv_a.kept.reached from known_a) link) in
      (
        follow s from to b,
        rw (ran, take_link) (rw ran'),
        follow-Inv s root b inv_b from to link (grown.known from known_a) known_b,
      )

  move-Inv :
      (g : SubState) (i : ℕ)
      → i < length g.parents
      → Inv s root g
      → Inv s root (record g { current = i })
  move-Inv g i h inv = record {
    kept = record {
      counted = inv.kept.counted;
      indexed = inv.kept.indexed;
      placed = inv.kept.placed;
      named = inv.kept.named;
      sized = inv.kept.sized;
      labelled = inv.kept.labelled;
      reached = inv.kept.reached;
      linked = inv.kept.linked;
    };
    rooted = inv.rooted;
    parented = inv.parented;
    current_in = h;
  }

  -- The search ends at a later place, where the parent is the one that is sought.
  next_parent-found :
      (from i : ℕ) (ps : List ℕ) (k : ℕ)
      → next_parent from i ps ≡ some k
      → (n : ℕ) × (k ≡ i + suc n) × (get_elem? ps n ≡ some from)
  unfolding next_parent
  next_parent-found from i [] k e = cc
  next_parent-found from i (p ∷ ps) k e = elim (ℕ_discrete p from) [
    | yes same ↦ (0, ground arith, ap some same)
    | no other ↦
        let (n, at_n, found) = next_parent-found from (suc i) ps k (ground arith) in
        (suc n, omega arith, found)
  ]

  get_elem?-behind :
      (i n k : ℕ) (ps : List ℕ) → k ≡ i + suc n → get_elem? (behind i ps) n ≡ get_elem? ps k
  get_elem?-behind i n k [] e = refl
  get_elem?-behind i n ℕ.zero (p ∷ ps) e = absurd (omega arith)
  get_elem?-behind ℕ.zero n (suc k) (p ∷ ps) e =
      ap (get_elem? ps) (let same : n ≡ k = omega arith in same)
  get_elem?-behind (suc i) n (suc k) (p ∷ ps) e = get_elem?-behind i n k ps (omega arith)

  -- What a round comes to: the end of the loop, or the next state.
  abbrev Round : ℕ → ℕ → SubState → Type 0
  Round from to g =
      (round s from to g ≡ ok none)
      ⊎ ((h : SubState) × (round s from to g ≡ ok (some h)) × Inv s root h)

  parent-Known :
      (g : SubState) (i p : ℕ) → Inv s root g → get_elem? g.parents i ≡ some p → Known g p
  parent-Known g i p inv e = inv.parented p (get_elem?-Memᴰ g.parents i e)

  -- A round ends without a panic, and keeps the invariant unless it ends the loop.
  next-Inv :
      (from to : ℕ) (g : SubState) → Inv s root g → Memᴰ (from, to) s.prev.links → Round from to g
  unfolding round
  next-Inv from to g inv link =
      let (parent, at_current) = get_elem?-of_lt g.parents g.current inv.current_in in
      elim (Bool-cases (ltb from parent)) [
        | inl below ↦ inr (g, ground arith, inv)
        | inr not_below ↦ elim (ℕ_discrete from parent) [
          | yes same ↦
              let (h, ran, inv_h) =
                take_link-Inv from to g inv link
                  (parent-Known g g.current from inv (at_current ∙ ap some (sym same))) in
              inr (h, ground arith, inv_h)
          | no other ↦
              elim (Option-cases (next_parent from g.current (behind g.current g.parents))) [
                | inl over ↦ inl (ground arith)
                | inr (i, e) ↦
                    let (n, at_n, found) =
                      next_parent-found from g.current (behind g.current g.parents) i e in
                    let here : get_elem? g.parents i ≡ some from =
                      sym (get_elem?-behind g.current n i g.parents at_n) ∙ found in
                    let moved = move-Inv g i (get_elem?-lt g.parents i here) inv in
                    let (h, ran, inv_h) =
                      take_link-Inv from to (record g { current = i }) moved link
                        (parent-Known g i from inv here) in
                    inr (h, ground arith, inv_h)
              ]
        ]
      ]

  pub all_rounds-Inv :
      (links : List (ℕ × ℕ)) (g : SubState)
      → ((e : ℕ × ℕ) → Memᴰ e links → Memᴰ e s.prev.links)
      → Inv s root g
      → (h : SubState) × (rounds s links g ≡ ok h) × Inv s root h
  unfolding rounds
  all_rounds-Inv [] g within inv = (g, refl, inv)
  all_rounds-Inv ((from, to) ∷ links) g within inv =
      elim (next-Inv from to g inv (within (from, to) (Memᴰ.head refl))) [
        | inl over ↦ (g, rw over refl, inv)
        | inr (h, ran, inv_h) ↦
            let (last, rest, inv_last) =
              all_rounds-Inv links h (λ e m. within e (Memᴰ.tail m)) inv_h in
            (last, rw ran rest, inv_last)
      ]
