-- ===== src/P2p/Headers.antt =====
-- dsync/p2p.go: the headers of a message carry the entries of a map to the other peer.
use dag.Base.{
  ◌≡◌, ◌≢◌, refl, sym, ap, ◌∙◌, Str, Str_discrete, [], ◌∷◌, ◌++◌, Memᴰ, keys, none, Dict, lookup,
  insert, lookup-insert, lookup_iff, arith,
}
use dag.P2p.{headers_of, flat}
use dag.P2p.Handlers.{meta_of}

-- The entries of a Go map: no key has two.
abbrev pub Distinct : Dict Str Str → Type 0
Distinct [] = Unit
Distinct ((k, v) ∷ meta) = (lookup Str_discrete k meta ≡ none) × Distinct meta

pub insert_fresh :
    (k v : Str) (m : Dict Str Str)
    → lookup Str_discrete k m ≡ none
    → insert Str_discrete k v m ≡ m ++ (k, v) ∷ []
unfolding lookup insert
insert_fresh k v [] h = refl
insert_fresh k v ((j, w) ∷ m) h = ground (arith, insert_fresh k v m)

append_assoc :
    (xs : Dict Str Str) (y : Str × Str) (zs : Dict Str Str) → (xs ++ y ∷ []) ++ zs ≡ xs ++ y ∷ zs
append_assoc [] y zs = refl
append_assoc (x ∷ xs) y zs = ap (λ r. x ∷ r) (append_assoc xs y zs)

-- Neither map has a key of the other.
abbrev pub Apart : Dict Str Str → Dict Str Str → Type 0
Apart meta headers = (k : Str) → Memᴰ k (keys meta) → lookup Str_discrete k headers ≡ none

append_nil : (xs : Dict Str Str) → xs ++ [] ≡ xs
append_nil [] = refl
append_nil (x ∷ xs) = ap (λ r. x ∷ r) (append_nil xs)

pub headers_of-flat :
    (meta headers : Dict Str Str)
    → Distinct meta
    → Apart meta headers
    → headers_of (flat meta) headers ≡ headers ++ meta
unfolding headers_of lookup
headers_of-flat [] headers d apart = sym (append_nil headers)
headers_of-flat ((k, v) ∷ meta) headers (new, d) apart =
    let added = insert_fresh k v headers (apart k (Memᴰ.head refl)) in
    let differ : (j : Str) → Memᴰ j (keys meta) → k ≢ j =
      λ j there same. (lookup_iff Str_discrete j meta).1 there (rw (← same) new) in
    let still_apart : Apart meta (insert Str_discrete k v headers) = λ j there.
      let other = differ j there in
      let before = apart j (Memᴰ.tail there) in
      let now = lookup-insert Str_discrete k j v headers in ground (arith, other, before, now) in
    headers_of-flat meta (insert Str_discrete k v headers) d still_apart
    ∙ ap (λ h. h ++ meta) added
    ∙ append_assoc headers (k, v) meta

-- The other peer's loop leaves such entries as they are, under other keys than the two.
pub meta_of-same :
    (a b : Str) (meta : Dict Str Str)
    → lookup Str_discrete a meta ≡ none
    → lookup Str_discrete b meta ≡ none
    → meta_of a b meta ≡ meta
unfolding lookup meta_of
meta_of-same a b [] p q = refl
meta_of-same a b ((k, v) ∷ meta) p q =
    let same : lookup Str_discrete a meta ≡ none
        → lookup Str_discrete b meta ≡ none
        → meta_of a b meta ≡ meta =
      meta_of-same a b meta in
    ground (arith, same)

Apart-from_two :
    (a v b w : Str) (meta : Dict Str Str)
    → lookup Str_discrete a meta ≡ none
    → lookup Str_discrete b meta ≡ none
    → Apart meta ((a, v) ∷ (b, w) ∷ [])
unfolding lookup
Apart-from_two a v b w meta p q k there =
    let not_a : a ≢ k = λ same. (lookup_iff Str_discrete k meta).1 there (rw (← same) p) in
    let not_b : b ≢ k = λ same. (lookup_iff Str_discrete k meta).1 there (rw (← same) q) in
    ground (arith, not_a, not_b)

-- The headers of a message with two headers and the entries of a map.
pub headers_of-two :
    (a v b w : Str) (meta : Dict Str Str)
    → a ≢ b
    → Distinct meta
    → lookup Str_discrete a meta ≡ none
    → lookup Str_discrete b meta ≡ none
    → headers_of (a ∷ v ∷ b ∷ w ∷ flat meta) [] ≡ (a, v) ∷ (b, w) ∷ meta
unfolding headers_of lookup insert
headers_of-two a v b w meta differ d p q =
    let free : lookup Str_discrete b ((a, v) ∷ []) ≡ none = ground (arith, differ) in
    ap (headers_of (flat meta)) (insert_fresh b w ((a, v) ∷ []) free)
    ∙ headers_of-flat meta ((a, v) ∷ (b, w) ∷ []) d (Apart-from_two a v b w meta p q)
