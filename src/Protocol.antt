-- ===== src/Protocol.antt =====
-- dsync/stream.go: which protocol versions support the streaming of blocks.
pub mod Versions
use dag.Base.{
  ℕ, zero, suc, ◌+◌, ◌*◌, ◌-◌, ◌≤◌, ◌<◌, ◌≡◌, Str, bytes, has_prefix, drop, length, Bool, true,
  false, ◌&&◌, List, [], ◌∷◌, Option, none, some, ltb, leb, ◌==◌, if◌then◌else◌,
}
use dag.Base.Int.{ℤ, pos, negsuc}

-- strings.TrimPrefix
unfoldable pub trim_prefix : Str → Str → Str
trim_prefix s prefix = if has_prefix s prefix then drop (length prefix) s else s

-- The byte `c` before the first of the pieces.
abbrev pub onto_first : ℕ → List Str → List Str
onto_first c [] = (c ∷ []) ∷ []
onto_first c (piece ∷ pieces) = (c ∷ piece) ∷ pieces

-- strings.Split by one byte
unfoldable pub split : ℕ → Str → List Str
split sep [] = [] ∷ []
split sep (c ∷ s) =
    let pieces = split sep s in if c == sep then [] ∷ pieces else onto_first c pieces

abbrev pub is_digit : ℕ → Bool
is_digit c = leb 48 c && ltb c 58

-- The number that the digits write, behind the number `n`.
unfoldable pub digits_value : ℕ → Str → Option ℕ
digits_value n [] = some n
digits_value n (c ∷ s) =
    let rest = digits_value (10 * n + (c - 48)) s in if is_digit c then rest else none

-- The numbers of an `int` of 64 bits.
abbrev pub max_int : ℕ
max_int = 9223372036854775807

abbrev pub positive : ℕ → Option ℤ
positive n = if leb n max_int then some (pos n) else none

abbrev pub negative : ℕ → Option ℤ
negative zero = some (pos zero)
negative (suc n) = if leb n max_int then some (negsuc n) else none

abbrev pub unsigned : Str → Option ℕ
unsigned [] = none
unsigned (c ∷ s) = digits_value 0 (c ∷ s)

-- strconv.Atoi, without the text of its error
unfoldable pub atoi : Str → Option ℤ
unfolding digits_value
atoi [] = none
atoi (c ∷ s) =
    if c == b'-'
    then (elim (unsigned s) [ none ↦ none | some n ↦ negative n ])
    else if c == b'+'
    then (elim (unsigned s) [ none ↦ none | some n ↦ positive n ])
    else (elim (unsigned (c ∷ s)) [ none ↦ none | some n ↦ positive n ])

-- `x >= n`
abbrev pub at_least : ℤ → ℕ → Bool
at_least (pos x) n = leb n x
at_least (negsuc x) n = false

abbrev pub supports_versions : List Str → Bool
supports_versions (a ∷ b ∷ c ∷ []) = elim (atoi a) [
  | none ↦ false
  | some major ↦ elim (atoi b) [ none ↦ false | some minor ↦ at_least major 0 && at_least minor 2 ]
]
supports_versions _ = false

unfoldable pub protocol_supports_dag_streaming : Str → Bool
unfolding trim_prefix split atoi
protocol_supports_dag_streaming pid =
    supports_versions (split b'.' (trim_prefix pid (bytes "/dsync/")))
