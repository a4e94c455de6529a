-- ===== src/Pull/Progress.antt =====
-- A pull can always go on, until something is put on errCh.
use mathlib.Core.List.Memᴰ
use dag.Base.{
  ℕ, suc, ◌<◌, ◌≡◌, ◌≢◌, inl, inr, refl, ap, Str, Str_discrete, true, Bool-cases, List, [], ◌∷◌,
  Memᴰ, length, Result, Result-cases, ok, err, panic, arith, total, ℕ_discrete, Pick, first,
  List-cases, Pick-Memᴰ, ◌-◌,
}
use dag.Manifest.{Manifest}
use dag.Completion.{is_complete}
use dag.Completion.Laws.{transfer_complete}
use dag.Completion.Taken.{hit, total_hit-Memᴰ, AllTaken}
use dag.Pull.{
  BlockResponse, Pulling, pullers_of, Step, ask, get, refused, put_failed, mismatched, store,
  finished, unfinished,
}
use dag.Pull.Inv.{response_hit, Inv}

pub pullers_of_pos : (diff : Manifest) (d : Str) → Memᴰ d diff.nodes → 0 < pullers_of diff
unfolding pullers_of
pullers_of_pos diff d there = elim (List-cases diff.nodes) [
  | inl e ↦ absurd (Memᴰ.not-nil (rw e at there))
  | inr (x, rest, e) ↦ rw e (omega arith)
]

module _ (m diff : Manifest) (Serves Puts : Str → Result Str → Type 0) where
  -- What a pull leans on: the remote and the store answer each call, and do not panic.
  pub record Responsive : Type 0 where
    pub replies : (h : Str) → (raw : Result Str) × Serves h raw
    pub replies_well : (h : Str) (raw : Result Str) → Serves h raw → raw ≢ panic
    pub puts : (raw : Str) → (id : Result Str) × Puts raw id × (id ≢ panic)

  module _ (live : Responsive) (d : Str) (wanted : Memᴰ d diff.nodes) (s : Pulling)
      (inv : Inv m diff Serves Puts s) (waits : s.results ≡ []) where
    abbrev Next : Type 0
    Next = (t : Pulling) × Step m Serves Puts s t

    manned : 0 < s.pullers
    manned = omega (arith, inv.staffed, pullers_of_pos diff d wanted)

    from_check : (n : ℕ) → s.checks ≡ suc n → Next
    from_check n e = elim (Bool-cases (is_complete s.prog)) [
      | inl full ↦ (_, finished e full)
      | inr short ↦ (_, unfinished e short)
    ]

    from_put :
        {r : BlockResponse} {rest : List BlockResponse}
        → Pick r s.responses rest
        → (raw : Str) → r.raw ≡ ok raw
        → (id : Result Str) → Puts raw id
        → id ≢ panic
        → Next
    from_put p raw e panic put fine = absurd (fine refl)
    from_put p raw e (err why) put fine = (_, put_failed p e put)
    from_put {r} p raw e (ok id) put fine = elim (Str_discrete id r.hash) [
      | yes same ↦ let taken : Puts raw (ok r.hash) = rw same at put in (_, store p e taken)
      | no other ↦ (_, mismatched p e put other)
    ]

    from_response : (r : BlockResponse) (rest : List BlockResponse) → s.responses ≡ r ∷ rest → Next
    from_response r rest e =
        let p : Pick r s.responses rest = rw e first in
        elim (Result-cases r.raw) [
          | inl (raw, good) ↦ let (id, put, fine) = live.puts raw in from_put p raw good id put fine
          | inr (inl (why, bad)) ↦ (_, refused p bad)
          | inr (inr bad) ↦ absurd (live.replies_well r.hash r.raw (inv.served r (Pick-Memᴰ p)) bad)
        ]

    from_job : (h : Str) (rest : List Str) → s.jobs ≡ h ∷ rest → Next
    from_job h rest e =
        let here : Pick h s.jobs rest = rw e first in
        let (raw, serves) = live.replies h in (_, get here serves)

    -- With nothing under way, every block was taken, and the last handler has seen it.
    not_stuck : s.checks ≡ 0 → s.responses ≡ [] → s.jobs ≡ [] → s.queue ≡ [] → ⊥
    not_stuck c r j q =
        let done_all : (id : Str) → Memᴰ id diff.nodes → 0 < total (hit id) s.taken = λ id lacking.
          omega (
            arith,
            inv.accounted id lacking,
            ap (total (hit id)) q,
            ap (total (hit id)) j,
            ap (total (response_hit id)) r,
            ap length waits,
          ) in
        let all : AllTaken m diff s.taken =
          λ id listed lacking. total_hit-Memᴰ id s.taken (done_all id lacking) in
        let full : is_complete s.prog ≡ true =
          rw inv.marked ((transfer_complete m diff s.taken).1 all) in
        elim (inv.noticed full) [
          | inl empty ↦ omega (arith, done_all d wanted, ap (total (hit d)) empty)
          | inr busy ↦ omega (arith, busy, c, ap length waits)
        ]

    pub progress : Next
    progress = elim (ℕ_discrete s.checks 0) [
      | no busy ↦ from_check (s.checks - 1) (omega arith)
      | yes c ↦ elim (List-cases s.responses) [
        | inr (r, rest, e) ↦ from_response r rest e
        | inl r ↦ elim (List-cases s.jobs) [
          | inr (h, rest, e) ↦ from_job h rest e
          | inl j ↦ elim (List-cases s.queue) [
            | inr (h, rest, e) ↦ (_, ask e manned)
            | inl q ↦ absurd (not_stuck c r j q)
          ]
        ]
      ]
    ]
