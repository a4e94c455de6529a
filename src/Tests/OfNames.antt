-- ===== src/Tests/OfNames.antt =====
-- The name of a session, from draws that are all the same number: its groups of bits are 1, 63, and
-- then 0, so that the second is no letter.
use dag.Base.{ℕ, ◌≡◌, refl, Str, bytes, Memᴰ, some, length, arith}
use dag.Session.Names.{letter_bytes, rand_string_bytes_mask, rand_string_bytes_mask_lem, fill}

abbrev draws : ℕ → ℕ
draws k = 4033

drawn : rand_string_bytes_mask draws 20 10 ≡ some (bytes "baaaaaaaab")
unfolding rand_string_bytes_mask fill
drawn = refl

rand_string_bytes_mask_lem_example :
    (fuel : ℕ) × (s : Str) × (rand_string_bytes_mask draws fuel 10 ≡ some s)
    × (length s ≡ 10)
    × ((b : ℕ) → Memᴰ b s → Memᴰ b letter_bytes)
rand_string_bytes_mask_lem_example =
    rand_string_bytes_mask_lem draws (λ k. (k, omega arith, omega arith)) 10
