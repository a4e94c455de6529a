-- ===== src/Base/Text.antt =====
-- Go strings: sequences of bytes, with Go's byte-wise order and the tests of package strings.
use Prim.Native.Nat.{ℕ}
use Prim.Native.Char.{code}
use Prim.Native.String.{String}
use mathlib.Core.Path.{◌≡◌, refl}
use mathlib.Core.Bool.{Bool, true, false, ◌||◌, ◌&&◌}
use mathlib.Core.List.{List, [], ◌∷◌}
use native.Mathlib.Decide.{ℕ_discrete}
use native.Mathlib.Omega.{arith}
use dag.Base.Compare.{ltb, ◌==◌}

abbrev pub Str : Type 0
Str = List ℕ

-- The bytes of an ASCII literal.
abbrev pub bytes : String → Str
bytes (String.◌∷◌ letter rest) = code letter ∷ bytes rest
bytes String.[] = []

-- `a == b`
unfoldable pub Str_discrete : Discrete Str
unfolding ℕ_discrete
Str_discrete [] [] = yes refl
Str_discrete [] (y ∷ ys) = no (λ e. cc)
Str_discrete (x ∷ xs) [] = no (λ e. cc)
Str_discrete (x ∷ xs) (y ∷ ys) = elim (ℕ_discrete x y) [
  | no p ↦ no (λ e. p (cc))
  | yes p ↦ elim (Str_discrete xs ys) [ no q ↦ no (λ e. q (cc)) | yes q ↦ yes (cc) ]
]

-- `a < b`
unfoldable pub str_lt : Str → Str → Bool
str_lt [] [] = false
str_lt [] (y ∷ ys) = true
str_lt (x ∷ xs) [] = false
str_lt (x ∷ xs) (y ∷ ys) = ltb x y || (x == y && str_lt xs ys)

pub str_lt_irrefl : (s : Str) → str_lt s s ≡ false
unfolding str_lt
str_lt_irrefl [] = refl
str_lt_irrefl (x ∷ xs) = ground (arith, str_lt_irrefl xs)

-- Neither string is below the other only if they are the same.
pub str_lt_total : (a b : Str) → str_lt a b ≡ false → str_lt b a ≡ false → a ≡ b
unfolding str_lt
str_lt_total [] [] p q = refl
str_lt_total [] (y ∷ ys) p q = cc
str_lt_total (x ∷ xs) [] p q = cc
str_lt_total (x ∷ xs) (y ∷ ys) p q = ground (arith, str_lt_total xs ys)

pub str_lt_asymm : (a b : Str) → str_lt a b ≡ true → str_lt b a ≡ false
unfolding str_lt
str_lt_asymm [] [] p = refl
str_lt_asymm [] (y ∷ ys) p = refl
str_lt_asymm (x ∷ xs) [] p = cc
str_lt_asymm (x ∷ xs) (y ∷ ys) p = ground (arith, str_lt_asymm xs ys)

pub str_lt_chain : (a b c : Str) → str_lt b a ≡ false → str_lt c b ≡ false → str_lt c a ≡ false
unfolding str_lt
str_lt_chain [] [] [] p q = refl
str_lt_chain [] [] (z ∷ zs) p q = refl
str_lt_chain [] (y ∷ ys) [] p q = refl
str_lt_chain [] (y ∷ ys) (z ∷ zs) p q = refl
str_lt_chain (x ∷ xs) [] c p q = cc
str_lt_chain (x ∷ xs) (y ∷ ys) [] p q = cc
str_lt_chain (x ∷ xs) (y ∷ ys) (z ∷ zs) p q = ground (arith, str_lt_chain xs ys zs)

-- strings.HasPrefix, with the prefix last.
unfoldable pub has_prefix : Str → Str → Bool
has_prefix s [] = true
has_prefix [] (p ∷ ps) = false
has_prefix (x ∷ xs) (p ∷ ps) = x == p && has_prefix xs ps

-- strings.Contains
unfoldable pub str_contains : Str → Str → Bool
unfolding has_prefix
str_contains [] sub = has_prefix [] sub
str_contains (x ∷ xs) sub = has_prefix (x ∷ xs) sub || str_contains xs sub
