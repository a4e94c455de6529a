-- ===== src/Manifest/Build/Total.antt =====
-- When NewManifest returns: always with enough fuel, and without an error if all can be fetched.
use dag.Base.{
  ℕ, zero, suc, ◌+◌, ◌<◌, ◌≡◌, refl, ◌≢◌, ◌⊎◌, inl, inr, Str, Str_discrete, List, [], ◌∷◌, Memᴰ,
  none, lookup, Option-cases, ok, arith, length,
}
use dag.Base.Sorting.{Sorting}
use dag.Ipld.{Ipld, Node, NodeGetter, node_id}
use dag.Graph.{Child, Reach, here, step}
use dag.Manifest.{Manifest}
use dag.Manifest.Build.{
  MState, Outcome, done, fail, crash, out_of_fuel, Walk, ◌>>=◌, lift, check, modify, push_link,
  enter, set_weight, initial, finish, add_links, add_fresh, add_node, make_manifest, manifest_of,
  new_manifest,
}
use dag.Manifest.Build.Fuel.{Ends, Covers, bind-Ends, add_node-Ends, unlisted-nil, left}

-- The step ended well, or it ran out of fuel.
abbrev IsFine : {A : Type 0} → MState × Outcome A → Type 0
IsFine {A} r = (r.1 ≡ out_of_fuel) ⊎ ((a : A) × (r.1 ≡ done a))

bind-IsFine :
    {A B : Type 0} (m : Walk A) (f : A → Walk B) (st : MState)
    → IsFine (m st)
    → ((a : A) (mid : MState) → IsFine (f a mid))
    → IsFine (◌>>=◌ m f st)
bind-IsFine {A} {B} m f st h k = go (m st) h
  where
    go :
        (r : MState × Outcome A)
        → IsFine r
        → IsFine {A = B} (elim r.1 [
          | done a ↦ f a r.0
          | fail e ↦ (r.0, fail e)
          | crash ↦ (r.0, crash)
          | out_of_fuel ↦ (r.0, out_of_fuel)
        ])
    go (mid, done a) e = k a mid
    go (mid, fail x) (inl p) = cc
    go (mid, fail x) (inr (a, p)) = cc
    go (mid, crash) (inl p) = cc
    go (mid, crash) (inr (a, p)) = cc
    go (mid, out_of_fuel) e = inl refl

module _ (lib : Ipld) (ng : NodeGetter lib) where
  -- All below the node can be fetched, and has a size.
  pub record Fetchable (root : Node lib) : Type 0 where
    pub sized : (n : Node lib) → Reach lib ng root n → n.size.1 ≡ none
    pub linked :
        (n : Node lib) (l : lib.Link)
        → Reach lib ng root n
        → Memᴰ l n.links
        → (c : Node lib) × (ng.get_link l ≡ ok c)

  module _ (root : Node lib) (all : Fetchable root) where
    abbrev FineBelow : (Node lib → Walk ℕ) → Type 0
    FineBelow add = (n : Node lib) (st : MState) → Reach lib ng root n → IsFine (add n st)

    add_links-IsFine :
        (add : Node lib → Walk ℕ)
        → FineBelow add
        → (owner : Node lib) (id : Str) (ls : List lib.Link) (w : ℕ) (st : MState)
        → Reach lib ng root owner
        → ((l : lib.Link) → Memᴰ l ls → Memᴰ l owner.links)
        → IsFine (add_links lib ng add id ls w st)
    unfolding add_links
    add_links-IsFine add ih owner id [] w st r sub = inr (w, refl)
    add_links-IsFine add ih owner id (l ∷ ls) w st r sub =
        let (c, e) = all.linked owner l r (sub l (Memᴰ.head refl)) in
        let edge : Child lib ng owner c = record {
          link = l;
          listed = sub l (Memᴰ.head refl);
          fetched = e;
        } in
        rw (e, lift)
          (bind-IsFine (add c) (λ v. add_links lib ng add id ls (w + 1 + v))
            (push_link id (node_id lib c) st) (ih c (push_link id (node_id lib c) st) (step r edge))
            (λ v mid.
              add_links-IsFine add ih owner id ls (w + 1 + v) mid r (λ k m. sub k (Memᴰ.tail m))))

    add_fresh-IsFine :
        (add : Node lib → Walk ℕ)
        → FineBelow add
        → (n : Node lib) (st : MState) → Reach lib ng root n
        → IsFine (add_fresh lib ng add n st)
    unfolding add_fresh
    add_fresh-IsFine add ih n st r =
        let id = node_id lib n in
        let entered = enter id n.size.0 st in
        let store = λ (v : ℕ).
          λ (u : MState). let r : MState × Outcome ℕ = (set_weight id v u, done v) in r in
        rw (all.sized n r, check)
          (bind-IsFine (add_links lib ng add id n.links 0) store entered
            (add_links-IsFine add ih n id n.links 0 entered r (λ l m. m)) (λ v u. inr (v, refl)))

    add_node-IsFine : (fuel : ℕ) → FineBelow (add_node lib ng fuel)
    unfolding add_node
    add_node-IsFine zero n st r = inl refl
    add_node-IsFine (suc fuel) n st r =
        elim (Option-cases (lookup Str_discrete (node_id lib n) st.sizes)) [
          | inl new ↦
              rw (new, add_node)
                (add_fresh-IsFine (add_node lib ng fuel) (add_node-IsFine fuel) n st r)
          | inr (size, old) ↦ rw (old, add_node) (inr (0, refl))
        ]

module _ (lib : Ipld) (ng : NodeGetter lib) (names : List Str) (srt : Sorting) (fuel : ℕ)
    (id : lib.Cid) (root : Node lib) (covers : Covers names lib ng)
    (named : Memᴰ (node_id lib root) names) (enough : length names < fuel)
    (got : ng.get id ≡ ok root) where
  root-Ends : Ends names (left names initial) (add_node lib ng fuel root initial)
  root-Ends =
      add_node-Ends names lib ng covers fuel root initial named (omega (arith, unlisted-nil names))

  finish-Ends : (st : MState) → Ends names (left names st) (modify (finish srt) st)
  unfolding finish
  finish-Ends st = record { fuelled = λ p. cc; grows = omega arith }

  make_manifest-Ends : Ends names (left names initial) (make_manifest lib ng srt fuel id initial)
  unfolding make_manifest
  make_manifest-Ends =
      rw (got, lift)
        (bind-Ends names (add_node lib ng fuel root) (λ _. modify (finish srt)) initial root-Ends
          (λ w mid g. finish-Ends mid))

  make_manifest-IsFine : Fetchable lib ng root → IsFine (make_manifest lib ng srt fuel id initial)
  unfolding make_manifest
  make_manifest-IsFine all =
      rw (got, lift)
        (bind-IsFine (add_node lib ng fuel root) (λ _. modify (finish srt)) initial
          (add_node-IsFine lib ng root all fuel root initial here) (λ w mid. inr (tt, refl)))

  -- Let `names` hold the identifier of every node that a link leads to, and of the root, which the
  -- getter returns for `id`. With more fuel than there are names NewManifest does not run out of
  -- it, cycles included.
  pub new_manifest_terminates : (new_manifest lib ng srt fuel id).1 ≢ out_of_fuel
  unfolding new_manifest
  new_manifest_terminates = make_manifest-Ends.fuelled

  -- Let `names` hold the identifier of every node that a link leads to, and of the root, which the
  -- getter returns for `id`. With more fuel than there are names, and if every link below the root
  -- can be fetched and every node there has a size, NewManifest returns a manifest and no error.
  pub new_manifest_returns :
      Fetchable lib ng root → (m : Manifest) × (new_manifest lib ng srt fuel id ≡ (m, done tt))
  unfolding new_manifest
  new_manifest_returns all = elim (make_manifest-IsFine all) [
    | inl spent ↦ absurd (make_manifest-Ends.fuelled spent)
    | inr (_, e) ↦
        let st = (make_manifest lib ng srt fuel id initial).0 in
        (manifest_of st, λ i. (manifest_of st, e i))
  ]
