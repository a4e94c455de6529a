-- ===== src/Session/Names.antt =====
-- dsync/session.go: randStringBytesMask, which draws the names of sessions.
use Prim.Native.Nat.{◌/◌, ◌%◌}
use mathlib.Core.List.Memᴰ
use dag.Base.{
  ℕ, zero, suc, ◌+◌, ◌-◌, ◌<◌, ◌≤◌, ◌≡◌, ◌⊎◌, inl, inr, refl, sym, ◌∙◌, Str, bytes, [], ◌∷◌, Memᴰ,
  Option, none, some, Option-cases, length, get_elem?, get_elem?-of_lt, get_elem?-Memᴰ, arith,
}

abbrev pub letter_bytes : Str
letter_bytes = bytes "abcdefghijklmnopqrstuvwxyzABCDEFGHIJKLMNOPQRSTUVWXYZ"

-- `letterIdxMask` is 63, so `cache & letterIdxMask` is the remainder by 64, and `cache >>= 6` the
-- quotient.
abbrev pub letter_idx_bits : ℕ
letter_idx_bits = 6

abbrev pub letter_idx_max : ℕ
letter_idx_max = 10

-- `draws k` is what call number k of rand.Int63 returns, from 0 on. The loop: `todo` is i + 1,
-- `k` the number of calls so far, and `done` has the bytes of `b` behind i.
unfoldable pub fill : (ℕ → ℕ) → ℕ → ℕ → ℕ → ℕ → ℕ → Str → Option Str
fill draws fuel zero cache remain k done = some done
fill draws zero (suc todo) cache remain k done = none
fill draws (suc fuel) (suc todo) cache zero k done = elim (get_elem? letter_bytes (draws k % 64)) [
  | some letter ↦ fill draws fuel todo (draws k / 64) 9 (suc k) (letter ∷ done)
  | none ↦ fill draws fuel (suc todo) (draws k / 64) 9 (suc k) done
]
fill draws (suc fuel) (suc todo) cache (suc remain) k done =
    elim (get_elem? letter_bytes (cache % 64)) [
      | some letter ↦ fill draws fuel todo (cache / 64) remain k (letter ∷ done)
      | none ↦ fill draws fuel (suc todo) (cache / 64) remain k done
    ]

unfoldable pub rand_string_bytes_mask : (ℕ → ℕ) → ℕ → ℕ → Option Str
unfolding fill
rand_string_bytes_mask draws fuel n = fill draws fuel n (draws 0) letter_idx_max 1 []

module _ (draws : ℕ → ℕ) where
  -- The loop comes to an end from here, with a name of letters.
  abbrev Ends : ℕ → ℕ → ℕ → ℕ → Str → Type 0
  Ends todo cache remain k done =
      (fuel : ℕ) × (s : Str) × (fill draws fuel todo cache remain k done ≡ some s)
      × (length s ≡ todo + length done)
      × ((b : ℕ) → Memᴰ b s → Memᴰ b letter_bytes ⊎ Memᴰ b done)

  Ends-letter :
      (todo x remain k letter : ℕ) (done : Str)
      → Memᴰ letter letter_bytes
      → Ends todo x remain k (letter ∷ done)
      → (fuel : ℕ) × (s : Str) × (fill draws fuel todo x remain k (letter ∷ done) ≡ some s)
        × (length s ≡ suc todo + length done)
        × ((b : ℕ) → Memᴰ b s → Memᴰ b letter_bytes ⊎ Memᴰ b done)
  Ends-letter todo x remain k letter done is (fuel, s, ran, counted, from) = (
    fuel,
    s,
    ran,
    omega (arith, counted),
    λ b m. elim (from b m) [
      | inl l ↦ inl l
      | inr there ↦ elim (Memᴰ.cases_cons there) [ inl same ↦ inl (rw same is) | inr old ↦ inr old ]
    ],
  )

  -- One group of bits, which is a letter or not.
  of_group :
      (todo cache remain k : ℕ) (done : Str)
      → ((letter : ℕ) → Ends todo (cache / 64) remain k (letter ∷ done))
      → (get_elem? letter_bytes (cache % 64) ≡ none → Ends (suc todo) (cache / 64) remain k done)
      → Ends (suc todo) cache (suc remain) k done
  unfolding fill
  of_group todo cache remain k done found on =
      elim (Option-cases (get_elem? letter_bytes (cache % 64))) [
        | inl lost ↦
            let (fuel, s, ran, counted, from) = on lost in
            (suc fuel, s, rw (lost, fill) ran, counted, from)
        | inr (letter, e) ↦
            let (fuel, s, ran, counted, from) =
              Ends-letter todo (cache / 64) remain k letter done
                (get_elem?-Memᴰ letter_bytes (cache % 64) e) (found letter) in
            (suc fuel, s, rw (e, fill) ran, counted, from)
      ]

  -- With nothing left in the cache the loop goes on as with the next draw in it.
  refilled :
      (todo cache k : ℕ) (done : Str)
      → Ends (suc todo) (draws k) 10 (suc k) done
      → Ends (suc todo) cache 0 k done
  unfolding fill
  refilled todo cache k done (zero, s, ran, counted, from) = absurd (cc ran)
  refilled todo cache k done (suc fuel, s, ran, counted, from) = (suc fuel, s, ran, counted, from)

  module _ (todo : ℕ) (ih : (cache remain k : ℕ) (done : Str) → Ends todo cache remain k done) where
    cached :
        (remain cache k : ℕ) (done : Str)
        → ((c : ℕ) → Ends (suc todo) c 0 k done)
        → Ends (suc todo) cache remain k done
    cached zero cache k done again = again cache
    cached (suc remain) cache k done again =
        of_group todo cache remain k done (λ letter. ih (cache / 64) remain k (letter ∷ done))
          (λ lost. cached remain (cache / 64) k done again)

    until_good :
        (distance j k : ℕ) (done : Str)
        → j ≡ k + distance
        → draws j % 64 < length letter_bytes
        → (c : ℕ) → Ends (suc todo) c 0 k done
    until_good zero j k done at good c = refilled todo c k done (
        of_group todo (draws k) 9 (suc k) done
          (λ letter. ih (draws k / 64) 9 (suc k) (letter ∷ done))
          (λ lost.
            let same : j ≡ k = omega (arith, at) in
            let (letter, e) = get_elem?-of_lt letter_bytes (draws k % 64) (rw (← same) good) in
            absurd (cc (sym lost ∙ e))))
    until_good (suc distance) j k done at good c = refilled todo c k done (
        cached 10 (draws k) (suc k) done
          (until_good distance j (suc k) done (omega (arith, at)) good))

  module _ (recurs : (k : ℕ) → (j : ℕ) × (k ≤ j) × (draws j % 64 < length letter_bytes)) where
    all_end : (todo cache remain k : ℕ) (done : Str) → Ends todo cache remain k done
    unfolding fill
    all_end zero cache remain k done = (0, done, refl, omega arith, λ b m. inr m)
    all_end (suc todo) cache remain k done = cached todo (all_end todo) remain cache k done (λ c.
        let (j, le, good) = recurs k in
        until_good todo (all_end todo) (j - k) j k done (omega (arith, le)) good c)

    -- If again and again a number is drawn whose last six bits are the index of a letter, then
    -- randStringBytesMask returns, for any n, a string of n of the letters.
    pub rand_string_bytes_mask_lem :
        (n : ℕ)
        → (fuel : ℕ) × (s : Str) × (rand_string_bytes_mask draws fuel n ≡ some s)
          × (length s ≡ n)
          × ((b : ℕ) → Memᴰ b s → Memᴰ b letter_bytes)
    unfolding rand_string_bytes_mask
    rand_string_bytes_mask_lem n =
        let (fuel, s, ran, counted, from) = all_end n (draws 0) 10 1 [] in
        (
          fuel,
          s,
          ran,
          omega (arith, counted),
          λ b m. elim (from b m) [ inl is ↦ is | inr nowhere ↦ absurd (Memᴰ.not-nil nowhere) ],
        )
