-- ===== src/Tests/OfSubDag.antt =====
-- Sub-DAGs of the sample.
use mathlib.Core.List.Memᴰ
use dag.Base.{
  ap, Str_discrete, Memᴰ, List, ℕ, ◌<◌, Bool, true, ltb, ◌&&◌, length, inl, inr, arith, sym, ◌≡◌,
  refl, bytes, [], ◌∷◌, some, ok, lookup, insert,
}
use dag.Base.Int.{pos, ℤ_discrete}
use dag.Manifest.{Manifest}
use dag.Info.{Info}
use dag.SubDag.{info_at_index, add_sub_label, source_of}
use dag.SubDag.Inv.{IsWellFormed}
use dag.SubDag.Correct.{At, info_at_index_lem}
use dag.Tests.Sample.{names}

abbrev sized : List ℕ
sized = 10 ∷ 11 ∷ 12 ∷ 13 ∷ 14 ∷ 15 ∷ []

abbrev whole : Info
whole = record {
  manifest =
      some (record { links = (0, 1) ∷ (0, 2) ∷ (1, 3) ∷ (2, 4) ∷ (3, 5) ∷ []; nodes = names });
  labels = (bytes "leaf", pos 4) ∷ [];
  sizes = some sized;
}

at_two :
    info_at_index whole (pos 2)
    ≡ ok (record {
      manifest = some (record { links = (0, 1) ∷ []; nodes = bytes "c" ∷ bytes "e" ∷ [] });
      labels = (bytes "leaf", pos 1) ∷ [];
      sizes = some (12 ∷ 14 ∷ []);
    })
unfolding info_at_index insert lookup Str_discrete add_sub_label ℤ_discrete
at_two = refl

-- The node f is below b, and the sub-DAG at b lacks it.
at_one :
    info_at_index whole (pos 1)
    ≡ ok (record {
      manifest = some (record { links = (0, 1) ∷ []; nodes = bytes "b" ∷ bytes "d" ∷ [] });
      labels = [];
      sizes = some (11 ∷ 13 ∷ []);
    })
unfolding info_at_index insert lookup Str_discrete add_sub_label ℤ_discrete
at_one = refl

all_within : ℕ → List (ℕ × ℕ) → Bool
all_within n [] = true
all_within n ((from, to) ∷ links) = ltb from n && ltb to n && all_within n links

all_within-Memᴰ :
    (n : ℕ) (links : List (ℕ × ℕ))
    → all_within n links ≡ true
    → (e : ℕ × ℕ) → Memᴰ e links
    → (e.0 < n) × (e.1 < n)
unfolding all_within
all_within-Memᴰ n [] h e m = absurd (Memᴰ.not-nil m)
all_within-Memᴰ n ((from, to) ∷ links) h e m = elim (Memᴰ.cases_cons m) [
  | inl same ↦
      let first : e.0 ≡ from = ap (λ p. p.0) same in
      let second : e.1 ≡ to = ap (λ p. p.1) same in (ground arith, ground arith)
  | inr later ↦ all_within-Memᴰ n links (ground arith) e later
]

abbrev links : List (ℕ × ℕ)
links = (0, 1) ∷ (0, 2) ∷ (1, 3) ∷ (2, 4) ∷ (3, 5) ∷ []

abbrev part_of : Manifest
part_of = record { links = links; nodes = names }

whole-IsWellFormed : IsWellFormed (source_of whole part_of)
unfolding source_of all_within
whole-IsWellFormed = record {
  links_in = all_within-Memᴰ 6 links refl;
  sizes_in = λ sizes e. let same : sized ≡ sizes = cc in sym (ap length same);
}

info_at_index_lem_example : At whole part_of (pos 2) (info_at_index whole (pos 2))
info_at_index_lem_example = info_at_index_lem whole part_of refl whole-IsWellFormed (pos 2)
