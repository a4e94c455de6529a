-- ===== src/Completion/Taken.antt =====
-- Which blocks of a transfer have come, for push and pull.
use dag.Base.{
  ℕ, ◌<◌, refl, sym, inl, Str, Str_discrete, List, [], ◌∷◌, ◌++◌, Memᴰ, Memᴰ-concat, Option, none,
  some, Error, arith, ite, total,
}
use dag.Manifest.{Manifest}

-- Whether `h` is `id`, as a number.
abbrev pub hit : Str → Str → ℕ
hit id h = ite (Str_discrete h id) 1 0

pub hit_self : (id : Str) → 0 < hit id id
hit_self id = elim (Str_discrete id id) [ yes _ ↦ ground arith | no other ↦ absurd (other refl) ]

pub total_hit-Memᴰ : (id : Str) (hs : List Str) → 0 < total (hit id) hs → Memᴰ id hs
total_hit-Memᴰ id [] h = absurd (omega arith)
total_hit-Memᴰ id (x ∷ hs) h = elim (Str_discrete x id) [
  | yes same ↦ Memᴰ.head (sym same)
  | no other ↦ Memᴰ.tail (total_hit-Memᴰ id hs (ground arith))
]

-- Whether a result is a nil error.
abbrev pub nil : Option Error → ℕ
nil none = 1
nil (some e) = 0

-- Every block of `m` that is in `diff` is among `hashes`.
abbrev pub AllTaken : Manifest → Manifest → List Str → Type 0
AllTaken m diff hashes = (id : Str) → Memᴰ id m.nodes → Memᴰ id diff.nodes → Memᴰ id hashes

pub AllTaken-concat :
    (m diff : Manifest) (hs : List Str) (h : Str)
    → AllTaken m diff hs
    → AllTaken m diff (hs ++ h ∷ [])
AllTaken-concat m diff hs h all id listed lacking =
    (Memᴰ-concat id h hs).1 (inl (all id listed lacking))
