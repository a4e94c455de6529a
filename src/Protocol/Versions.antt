-- ===== src/Protocol/Versions.antt =====
-- Which versions the test accepts.
use mathlib.Core.List.Memᴰ
use dag.Base.{
  ◌*◌, ◌-◌, ◌+◌, ℕ, ◌≤◌, ◌≡◌, ◌≢◌, refl, ap, ◌∙◌, sym, Str, bytes, has_prefix, false, List, [], ◌∷◌,
  ◌++◌, Memᴰ, some, arith, true, ◌↔◌, Bool-cases, inl, inr,
}
use dag.Protocol.{
  trim_prefix, split, is_digit, digits_value, positive, atoi, supports_versions,
  protocol_supports_dag_streaming,
}

abbrev pub HasNo : ℕ → Str → Type 0
HasNo sep s = ¬ Memᴰ sep s

HasNo-tail : (sep c : ℕ) (s : Str) → HasNo sep (c ∷ s) → HasNo sep s
HasNo-tail sep c s h m = h (Memᴰ.tail m)

-- A piece up to a separator, and the last piece.
split-piece : (sep : ℕ) (a s : Str) → HasNo sep a → split sep (a ++ sep ∷ s) ≡ a ∷ split sep s
unfolding split
split-piece sep [] s h = ground arith
split-piece sep (c ∷ a) s h =
    let other : c ≢ sep = λ e. h (Memᴰ.head (sym e)) in
    let ih = split-piece sep a s (HasNo-tail sep c a h) in ground arith

split-last : (sep : ℕ) (a : Str) → HasNo sep a → split sep a ≡ a ∷ []
unfolding split
split-last sep [] h = refl
split-last sep (c ∷ a) h =
    let other : c ≢ sep = λ e. h (Memᴰ.head (sym e)) in
    let ih = split-last sep a (HasNo-tail sep c a h) in ground arith

-- `s` writes the number `n` in decimal digits.
pub record Writes (s : Str) (n : ℕ) : Type 0 where
  pub filled : s ≢ []
  pub value : digits_value 0 s ≡ some n

-- Digits are neither dots nor signs.
digits_value-HasNo :
    (sep : ℕ) (s : Str) (n k : ℕ) → is_digit sep ≡ false → digits_value n s ≡ some k → HasNo sep s
unfolding digits_value
digits_value-HasNo sep [] n k h e m = absurd (Memᴰ.not-nil m)
digits_value-HasNo sep (c ∷ s) n k h e m = elim (Bool-cases (is_digit c)) [
  | inr not_digit ↦ absurd (cc (sym (rw not_digit at e)))
  | inl digit ↦ elim (Memᴰ.cases_cons m) [
    | inl same ↦ absurd (cc (sym h ∙ (ap is_digit same ∙ digit)))
    | inr later ↦ digits_value-HasNo sep s (10 * n + (c - 48)) k h (rw digit at e) later
  ]
]

-- Atoi takes the number if an int can hold it.
atoi-Writes : (s : Str) (n : ℕ) → Writes s n → atoi s ≡ positive n
unfolding atoi digits_value
atoi-Writes [] n w = absurd (w.filled refl)
atoi-Writes (c ∷ s) n w = let value = w.value in ground arith

supports_versions_iff :
    (a b c : Str) (major minor : ℕ)
    → atoi a ≡ positive major
    → atoi b ≡ positive minor
    → (supports_versions (a ∷ b ∷ c ∷ []) ≡ true)
      ↔ ((major ≤ 9223372036854775807) × (minor ≤ 9223372036854775807) × (2 ≤ minor))
supports_versions_iff a b c major minor ea eb =
    (λ holds. (ground arith, ground arith, ground arith), λ (m, n, two). ground arith)

-- For a protocol of three parts, of which the first two are numbers in decimal digits, the test
-- holds exactly if both numbers are at most 2 ^ 63 - 1, so that an int can hold them, and the
-- second is 2 at least; the first one does not matter otherwise.
pub protocol_supports_dag_streaming_lem :
    (a b c : Str) (major minor : ℕ)
    → Writes a major
    → Writes b minor
    → HasNo b'.' c
    → (protocol_supports_dag_streaming (bytes "/dsync/" ++ (a ++ (b'.' ∷ (b ++ (b'.' ∷ c)))))
        ≡ true)
      ↔ ((major ≤ 9223372036854775807) × (minor ≤ 9223372036854775807) × (2 ≤ minor))
unfolding protocol_supports_dag_streaming trim_prefix has_prefix
protocol_supports_dag_streaming_lem a b c major minor wa wb plain =
    let no_dot_a = digits_value-HasNo b'.' a 0 major refl wa.value in
    let no_dot_b = digits_value-HasNo b'.' b 0 minor refl wb.value in
    let pieces =
      split-piece b'.' a (b ++ (b'.' ∷ c)) no_dot_a
      ∙ ap (λ (rest : List Str). a ∷ rest)
          (split-piece b'.' b c no_dot_b
            ∙ ap (λ (rest : List Str). b ∷ rest) (split-last b'.' c plain)) in
    rw pieces
      (supports_versions_iff a b c major minor (atoi-Writes a major wa) (atoi-Writes b minor wb))
