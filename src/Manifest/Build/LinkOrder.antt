-- ===== src/Manifest/Build/LinkOrder.antt =====
-- The order of the links: what the comparison of sortableLinks by one number amounts to.
use mathlib.Core.List.Pairwise
use mathlib.Core.Logic.{∥∥₁_elim}
use native.Mathlib.Bridge.{le_prop}
use dag.Base.{
  Bool, ap, List, some, get_elem?, get_elem?-Memᴰ, ◌*◌, zero, suc, ◌∷◌, ℕ, ◌+◌, ◌≤◌, ◌<◌, ◌≡◌, ◌⊎◌,
  inl, inr, false, Mem, Pairwise, ok, arith, length, get_elem?-lt, dec_lt,
}
use dag.Base.Sorting.{Sorting, IsWeakOrder, Ordered}
use dag.Ipld.{Ipld, Node, NodeGetter}
use dag.Graph.{ContentAddressed}
use dag.Manifest.{Manifest}
use dag.Manifest.Build.{done, link_less, finish, new_manifest, MState}
use dag.Manifest.Build.Walked.{new_manifest-Visit}
use dag.Manifest.Build.Correct.{new_manifest_links}

link_less-IsWeakOrder : IsWeakOrder link_less
link_less-IsWeakOrder = record { asymm = λ x y h. ground arith; chain = λ x y z h k. ground arith }

-- By the first index, and then by the second.
abbrev pub Lexicographic : ℕ × ℕ → ℕ × ℕ → Type 0
Lexicographic a b = (a.0 < b.0) ⊎ ((a.0 ≡ b.0) × (a.1 ≤ b.1))

-- Below a thousand nodes the comparison is the lexicographic one.
pub link_less_narrow :
    (a b : ℕ × ℕ) → a.1 < 1000 → b.1 < 1000 → link_less b a ≡ false → Lexicographic a b
link_less_narrow a b h k e = elim (dec_lt a.0 b.0) [
  | yes p ↦ inl p
  | no p ↦ inr (ground arith, ground arith)
]

finish-Ordered : (srt : Sorting) (st : MState) → Ordered link_less (finish srt st).sorted_links
unfolding finish
finish-Ordered srt st = srt.sort_ordered (ℕ × ℕ) link_less _ link_less-IsWeakOrder

-- If NewManifest returns no error, below the root an identifier names one node, and the manifest
-- has at most a thousand nodes, then its links stand in the order of their first indexes, and
-- those with one first index in the order of their second.
pub new_manifest_link_order :
    (lib : Ipld) (ng : NodeGetter lib) (srt : Sorting) (fuel : ℕ) (id : lib.Cid) (root : Node lib)
    (m : Manifest)
    → ng.get id ≡ ok root
    → new_manifest lib ng srt fuel id ≡ (m, done tt)
    → ContentAddressed lib ng root
    → length m.nodes ≤ 1000
    → Pairwise Lexicographic m.links
new_manifest_link_order lib ng srt fuel id root m got ran addressed small =
    let (st, w, walked, walk, same) = new_manifest-Visit lib ng srt fuel id root m got ran in
    let target = λ (l : ℕ × ℕ). λ (listed : Mem l m.links).
      ∥∥₁_elim ((new_manifest_links lib ng srt fuel id root m got ran addressed l.0 l.1).0 listed)
        le_prop λ (n, c, r, edge, at_i, at_j). get_elem?-lt m.nodes l.1 at_j in
    Pairwise.imp_of_mem
      (λ a b ma mb h.
        link_less_narrow a b (omega (arith, target a ma)) (omega (arith, target b mb)) h)
      (rw same (finish-Ordered srt st))

-- Of two elements of an ordered list, the later one is not less.
Ordered-get_elem? :
    {A : Type 0} {less : A → A → Bool} {xs : List A} {a b : A}
    → Ordered less xs
    → (p q : ℕ) → get_elem? xs p ≡ some a
    → get_elem? xs q ≡ some b
    → p < q
    → less b a ≡ false
Ordered-get_elem? Pairwise.nil p q at_p at_q h = cc
Ordered-get_elem? (Pairwise.cons before rest) zero zero at_p at_q h = absurd (omega arith)
Ordered-get_elem? {xs = x ∷ xs} {b} (Pairwise.cons before rest) zero (suc q) at_p at_q h =
    let listed = before b ∣ get_elem?-Memᴰ xs q at_q ∣₁ in cc
Ordered-get_elem? (Pairwise.cons before rest) (suc p) zero at_p at_q h = absurd (omega arith)
Ordered-get_elem? (Pairwise.cons before rest) (suc p) (suc q) at_p at_q h =
    Ordered-get_elem? rest p q at_p at_q (omega arith)

keys_in_order :
    {links : List (ℕ × ℕ)}
    → Ordered link_less links
    → (p q : ℕ) (a b : ℕ × ℕ) → get_elem? links p ≡ some a
    → get_elem? links q ≡ some b
    → 1000 * a.0 + a.1 < 1000 * b.0 + b.1
    → p < q
keys_in_order {links} sorted p q a b at_p at_q h = elim (dec_lt p q) [
  | yes before ↦ before
  | no other ↦ elim (dec_lt q p) [
    | yes behind ↦ let late = Ordered-get_elem? sorted q p at_q at_p behind in absurd (ground arith)
    | no apart ↦
        let met : get_elem? links p ≡ get_elem? links q =
          ap (get_elem? links) (omega (arith, other, apart)) in
        let same : a ≡ b = cc in
        absurd (omega (arith, h, ap (λ (l : ℕ × ℕ). 1000 * l.0 + l.1) same))
  ]
]

-- If NewManifest returns no error, then of two of its links the one whose first index times 1000
-- plus its second index is the smaller stands first, in a manifest of any size.
pub new_manifest_link_keys :
    (lib : Ipld) (ng : NodeGetter lib) (srt : Sorting) (fuel : ℕ) (id : lib.Cid) (root : Node lib)
    (m : Manifest)
    → ng.get id ≡ ok root
    → new_manifest lib ng srt fuel id ≡ (m, done tt)
    → (p q : ℕ) (a b : ℕ × ℕ) → get_elem? m.links p ≡ some a
    → get_elem? m.links q ≡ some b
    → 1000 * a.0 + a.1 < 1000 * b.0 + b.1
    → p < q
new_manifest_link_keys lib ng srt fuel id root m got ran p q a b at_p at_q h =
    let (st, w, walked, walk, same) = new_manifest-Visit lib ng srt fuel id root m got ran in
    let sorted : Ordered link_less m.links = rw same (finish-Ordered srt st) in
    keys_in_order sorted p q a b at_p at_q h
