-- ===== src/Tests/Sample.antt =====
-- A DAG of six nodes: a links to b and c, b to d, c to e, d to f. An identifier is a number, and
-- its text is one letter.
use dag.Base.{
  subst, inl, inr, ℕ, zero, suc, ◌+◌, ◌-◌, ◌≡◌, refl, ◌∙◌, sym, ap, Str, List, [], ◌∷◌, Memᴰ, none,
  Result, ok, err, external, false, arith, bytes,
}
use dag.Ipld.{Ipld, Node, NodeGetter, node_id}
use mathlib.Core.List.Memᴰ
use dag.Manifest.Build.Total.{Fetchable}
use dag.Graph.{Reach, here, step, ContentAddressed}

unfoldable pub parse_letter : Str → Result ℕ
parse_letter [] = err (external false (bytes "cid too short"))
parse_letter (c ∷ rest) = ok (c - 97)

abbrev pub letters : Ipld
letters = record {
  Cid = ℕ;
  Link = ℕ;
  cid_string = λ n. (97 + n) ∷ [];
  parse = parse_letter;
  undef = 100;
}

abbrev pub node : ℕ → List ℕ → Node letters
node n links = record { cid = n; links = links; size = (10 + n, none) }

abbrev pub fetch : ℕ → Result (Node letters)
fetch zero = ok (node 0 (1 ∷ 2 ∷ []))
fetch (suc zero) = ok (node 1 (3 ∷ []))
fetch (suc (suc zero)) = ok (node 2 (4 ∷ []))
fetch (suc (suc (suc zero))) = ok (node 3 (5 ∷ []))
fetch (suc (suc (suc (suc zero)))) = ok (node 4 [])
fetch (suc (suc (suc (suc (suc zero))))) = ok (node 5 [])
fetch _ = err (external false (bytes "not found"))

abbrev pub getter : NodeGetter letters
getter = record { get = fetch; get_link = fetch }

abbrev pub root : Node letters
root = node 0 (1 ∷ 2 ∷ [])

abbrev pub first_byte : Str → ℕ
first_byte [] = 0
first_byte (c ∷ rest) = c

-- A fetched node is the one that its identifier names.
fetch_own : (n : ℕ) (c : Node letters) → fetch n ≡ ok c → fetch c.cid ≡ ok c
fetch_own zero c e = ground arith
fetch_own (suc zero) c e = ground arith
fetch_own (suc (suc zero)) c e = ground arith
fetch_own (suc (suc (suc zero))) c e = ground arith
fetch_own (suc (suc (suc (suc zero)))) c e = ground arith
fetch_own (suc (suc (suc (suc (suc zero))))) c e = ground arith
fetch_own _ c e = cc

fetch_reached : (n : Node letters) → Reach letters getter root n → fetch n.cid ≡ ok n
fetch_reached n here = refl
fetch_reached n (step r edge) = fetch_own edge.link n edge.fetched

pub root-ContentAddressed : ContentAddressed letters getter root
root-ContentAddressed m n rm rn same =
    let p = fetch_reached m rm in
    let q = fetch_reached n rn in
    let e : m.cid ≡ n.cid = omega (arith, ap first_byte same) in cc (sym p ∙ (ap fetch e ∙ q))

abbrev pub names : List Str
names = bytes "a" ∷ bytes "b" ∷ bytes "c" ∷ bytes "d" ∷ bytes "e" ∷ bytes "f" ∷ []

pub names-Covers : (l : ℕ) (c : Node letters) → fetch l ≡ ok c → Memᴰ (node_id letters c) names
names-Covers zero c e =
    let q : node 0 (1 ∷ 2 ∷ []) ≡ c = cc in
    subst (λ k. Memᴰ (node_id letters k) names) q (Memᴰ.head refl)
names-Covers (suc zero) c e =
    let q : node 1 (3 ∷ []) ≡ c = cc in
    subst (λ k. Memᴰ (node_id letters k) names) q (Memᴰ.tail (Memᴰ.head refl))
names-Covers (suc (suc zero)) c e =
    let q : node 2 (4 ∷ []) ≡ c = cc in
    subst (λ k. Memᴰ (node_id letters k) names) q (Memᴰ.tail (Memᴰ.tail (Memᴰ.head refl)))
names-Covers (suc (suc (suc zero))) c e =
    let q : node 3 (5 ∷ []) ≡ c = cc in
    subst (λ k. Memᴰ (node_id letters k) names) q
      (Memᴰ.tail (Memᴰ.tail (Memᴰ.tail (Memᴰ.head refl))))
names-Covers (suc (suc (suc (suc zero)))) c e =
    let q : node 4 ([]) ≡ c = cc in
    subst (λ k. Memᴰ (node_id letters k) names) q
      (Memᴰ.tail (Memᴰ.tail (Memᴰ.tail (Memᴰ.tail (Memᴰ.head refl)))))
names-Covers (suc (suc (suc (suc (suc zero))))) c e =
    let q : node 5 ([]) ≡ c = cc in
    subst (λ k. Memᴰ (node_id letters k) names) q
      (Memᴰ.tail (Memᴰ.tail (Memᴰ.tail (Memᴰ.tail (Memᴰ.tail (Memᴰ.head refl))))))
names-Covers _ c e = cc

fetched_links :
    (k : ℕ) (n : Node letters)
    → fetch k ≡ ok n
    → (l : ℕ) → Memᴰ l n.links
    → (c : Node letters) × (fetch l ≡ ok c)
fetched_links zero n e l m =
    let q : n ≡ node 0 (1 ∷ 2 ∷ []) = cc in
    let m' : Memᴰ l (1 ∷ 2 ∷ []) = subst (λ (q : Node letters). Memᴰ l q.links) q m in
    elim (Memᴰ.cases_cons m') [
      | inl p ↦ rw p (node 1 (3 ∷ []), refl)
      | inr t ↦ rw (Memᴰ.eq_of_singleton t) (node 2 (4 ∷ []), refl)
    ]
fetched_links (suc zero) n e l m =
    let q : n ≡ node 1 (3 ∷ []) = cc in
    let m' : Memᴰ l (3 ∷ []) = subst (λ (q : Node letters). Memᴰ l q.links) q m in
    rw (Memᴰ.eq_of_singleton m') (node 3 (5 ∷ []), refl)
fetched_links (suc (suc zero)) n e l m =
    let q : n ≡ node 2 (4 ∷ []) = cc in
    let m' : Memᴰ l (4 ∷ []) = subst (λ (q : Node letters). Memᴰ l q.links) q m in
    rw (Memᴰ.eq_of_singleton m') (node 4 ([]), refl)
fetched_links (suc (suc (suc zero))) n e l m =
    let q : n ≡ node 3 (5 ∷ []) = cc in
    let m' : Memᴰ l (5 ∷ []) = subst (λ (q : Node letters). Memᴰ l q.links) q m in
    rw (Memᴰ.eq_of_singleton m') (node 5 ([]), refl)
fetched_links (suc (suc (suc (suc zero)))) n e l m =
    let q : n ≡ node 4 ([]) = cc in
    let m' : Memᴰ l ([]) = subst (λ (q : Node letters). Memᴰ l q.links) q m in
    absurd (Memᴰ.not-nil m')
fetched_links (suc (suc (suc (suc (suc zero))))) n e l m =
    let q : n ≡ node 5 ([]) = cc in
    let m' : Memᴰ l ([]) = subst (λ (q : Node letters). Memᴰ l q.links) q m in
    absurd (Memᴰ.not-nil m')
fetched_links _ n e l m = cc

fetched_sized : (k : ℕ) (n : Node letters) → fetch k ≡ ok n → n.size.1 ≡ none
fetched_sized zero n e = ground arith
fetched_sized (suc zero) n e = ground arith
fetched_sized (suc (suc zero)) n e = ground arith
fetched_sized (suc (suc (suc zero))) n e = ground arith
fetched_sized (suc (suc (suc (suc zero)))) n e = ground arith
fetched_sized (suc (suc (suc (suc (suc zero))))) n e = ground arith
fetched_sized _ n e = cc

pub root-Fetchable : Fetchable letters getter root
root-Fetchable = record {
  sized = λ n r. fetched_sized n.cid n (fetch_reached n r);
  linked = λ n l r m. fetched_links n.cid n (fetch_reached n r) l m;
}
