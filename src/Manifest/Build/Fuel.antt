-- ===== src/Manifest/Build/Fuel.antt =====
-- The walk ends: a depth of one more than the nodes not listed yet is enough, whatever the links
-- look like (also if they made a cycle), since a node is listed before its links are followed.
use dag.Base.{
  ℕ, zero, suc, ◌+◌, ◌≤◌, ◌<◌, ◌≡◌, refl, ◌≢◌, Str, Str_discrete, List, [], ◌∷◌, Memᴰ, none, some,
  Dict, lookup, insert, lookup-insert, Option, Option-cases, Result-cases, inl, inr, Error, Result,
  ok, err, panic, arith, length,
}
use mathlib.Core.List.Memᴰ
use dag.Ipld.{Ipld, Node, NodeGetter, node_id}
use dag.Manifest.Build.{
  MState, Outcome, done, fail, crash, out_of_fuel, Walk, ◌>>=◌, lift, check, push_link, enter,
  set_weight, add_links, add_fresh, add_node,
}

-- How many of the names are not among the keys.
pub unlisted : List Str → Dict Str ℕ → ℕ
unlisted [] m = 0
unlisted (u ∷ us) m = elim (lookup Str_discrete u m) [
  | none ↦ suc (unlisted us m)
  | some _ ↦ unlisted us m
]

unlisted-insert :
    (us : List Str) (k : Str) (n : ℕ) (m : Dict Str ℕ)
    → unlisted us (insert Str_discrete k n m) ≤ unlisted us m
unfolding unlisted
unlisted-insert [] k n m = omega arith
unlisted-insert (u ∷ us) k n m =
    ground (arith, unlisted-insert us k n m, lookup-insert Str_discrete k u n m)

unlisted-insert_new :
    (us : List Str) (k : Str) (n : ℕ) (m : Dict Str ℕ)
    → Memᴰ k us
    → lookup Str_discrete k m ≡ none
    → unlisted us (insert Str_discrete k n m) < unlisted us m
unfolding unlisted
unlisted-insert_new [] k n m h new = absurd (Memᴰ.not-nil h)
unlisted-insert_new (u ∷ us) k n m h new = elim (Memᴰ.cases_cons h) [
  | inl e ↦ ground (arith, unlisted-insert us k n m, lookup-insert Str_discrete k u n m)
  | inr t ↦ ground (arith, unlisted-insert_new us k n m t new, lookup-insert Str_discrete k u n m)
]

pub unlisted-nil : (us : List Str) → unlisted us [] ≡ length us
unfolding unlisted lookup
unlisted-nil [] = refl
unlisted-nil (u ∷ us) = omega (arith, unlisted-nil us)

module _ (names : List Str) where
  abbrev pub left : MState → ℕ
  left st = unlisted names st.sizes

  -- The step did not run out of fuel, and forgot no node.
  pub record Ends {A : Type 0} (k : ℕ) (r : MState × Outcome A) : Type 0 where
    pub fuelled : r.1 ≢ out_of_fuel
    pub grows : left r.0 ≤ k

  pub bind-Ends :
      {A B : Type 0} (m : Walk A) (f : A → Walk B) (st : MState)
      → Ends (left st) (m st)
      → ((a : A) (mid : MState) → left mid ≤ left st → Ends (left mid) (f a mid))
      → Ends (left st) (◌>>=◌ m f st)
  bind-Ends {A} {B} m f st h k = go (m st) h
    where
      go :
          (r : MState × Outcome A)
          → Ends (left st) r
          → Ends {A = B} (left st) (elim r.1 [
            | done a ↦ f a r.0
            | fail e ↦ (r.0, fail e)
            | crash ↦ (r.0, crash)
            | out_of_fuel ↦ (r.0, out_of_fuel)
          ])
      go (mid, done a) e =
          let next = k a mid e.grows in
          record { fuelled = next.fuelled; grows = omega (arith, next.grows, e.grows) }
      go (mid, fail x) e = record { fuelled = λ p. cc; grows = e.grows }
      go (mid, crash) e = record { fuelled = λ p. cc; grows = e.grows }
      go (mid, out_of_fuel) e = absurd (e.fuelled refl)

  lift-Ends : {A : Type 0} (r : Result A) (st : MState) → Ends (left st) (lift r st)
  lift-Ends (ok a) st = record { fuelled = λ p. cc; grows = omega arith }
  lift-Ends (err e) st = record { fuelled = λ p. cc; grows = omega arith }
  lift-Ends panic st = record { fuelled = λ p. cc; grows = omega arith }

  check-Ends : (e : Option Error) (st : MState) → Ends (left st) (check e st)
  check-Ends none st = record { fuelled = λ p. cc; grows = omega arith }
  check-Ends (some e) st = record { fuelled = λ p. cc; grows = omega arith }

  module _ (lib : Ipld) (ng : NodeGetter lib) where
    -- Every node that a link leads to is one of the named.
    abbrev pub Covers : Type 0
    Covers = (l : lib.Link) (c : Node lib) → ng.get_link l ≡ ok c → Memᴰ (node_id lib c) names

    abbrev pub EndsWithin : (Node lib → Walk ℕ) → ℕ → Type 0
    EndsWithin add fuel =
        (n : Node lib) (st : MState)
        → Memᴰ (node_id lib n) names
        → left st < fuel
        → Ends (left st) (add n st)

    add_links-Ends :
        (add : Node lib → Walk ℕ) (fuel : ℕ)
        → EndsWithin add fuel
        → Covers
        → (id : Str) (ls : List lib.Link) (w : ℕ) (st : MState) → left st < fuel
        → Ends (left st) (add_links lib ng add id ls w st)
    unfolding add_links
    add_links-Ends add fuel ih cov id [] w st h = record { fuelled = λ p. cc; grows = omega arith }
    add_links-Ends add fuel ih cov id (l ∷ ls) w st h = elim (Result-cases (ng.get_link l)) [
      | inl (c, e) ↦
          rw (e, lift)
            (bind-Ends (add c) (λ v. add_links lib ng add id ls (w + 1 + v))
              (push_link id (node_id lib c) st)
              (ih c (push_link id (node_id lib c) st) (cov l c e) h)
              (λ v mid g. add_links-Ends add fuel ih cov id ls (w + 1 + v) mid (omega arith)))
      | inr (inl (x, e)) ↦ rw (e, lift) (record { fuelled = λ p. cc; grows = omega arith })
      | inr (inr e) ↦ rw (e, lift) (record { fuelled = λ p. cc; grows = omega arith })
    ]

    add_fresh-Ends :
        (add : Node lib → Walk ℕ) (fuel : ℕ)
        → EndsWithin add fuel
        → Covers
        → (n : Node lib) (st : MState) → Memᴰ (node_id lib n) names
        → lookup Str_discrete (node_id lib n) st.sizes ≡ none
        → left st < suc fuel
        → Ends (left st) (add_fresh lib ng add n st)
    unfolding add_fresh
    add_fresh-Ends add fuel ih cov n st m new h =
        let id = node_id lib n in
        let entered = enter id n.size.0 st in
        let fewer = unlisted-insert_new names id n.size.0 st.sizes m new in
        let store = λ (v : ℕ).
          λ (u : MState). let r : MState × Outcome ℕ = (set_weight id v u, done v) in r in
        let walks = add_links lib ng add id n.links 0 in
        let rest =
          bind-Ends (check n.size.1) (λ _. ◌>>=◌ walks store) entered (check-Ends n.size.1 entered)
            (λ _ mid g.
              bind-Ends walks store mid
                (add_links-Ends add fuel ih cov id n.links 0 mid (omega arith))
                (λ v u k. record { fuelled = λ p. cc; grows = omega arith })) in
        record { fuelled = rest.fuelled; grows = omega (arith, rest.grows) }

    pub add_node-Ends : Covers → (fuel : ℕ) → EndsWithin (add_node lib ng fuel) fuel
    unfolding add_node add_fresh
    add_node-Ends cov zero n st m h = absurd (omega arith)
    add_node-Ends cov (suc fuel) n st m h =
        elim (Option-cases (lookup Str_discrete (node_id lib n) st.sizes)) [
          | inl new ↦
              rw (new, add_node)
                (add_fresh-Ends (add_node lib ng fuel) fuel (add_node-Ends cov fuel) cov n st m new
                  h)
          | inr (size, old) ↦ rw (old, add_node) (record { fuelled = λ p. cc; grows = omega arith })
        ]
