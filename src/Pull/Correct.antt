-- ===== src/Pull/Correct.antt =====
-- A pull of blocks comes to an end, and what its success means.
use dag.Base.{
  false, ℕ, zero, suc, ◌<◌, ◌≡◌, inl, inr, refl, Str, List, [], ◌∷◌, Memᴰ, Option, none, Error,
  Result, ok, err, arith, total_pos, first, List-cases,
}
use dag.Manifest.{Manifest}
use dag.Completion.Taken.{nil}
use dag.Pull.{Pulling, started, Step, ask, get, put_failed, Run, still, onward}
use dag.Pull.Measure.{measure, Step-measure}
use dag.Pull.Inv.{Stored, Inv, Step-Inv, started-Inv}
use dag.Pull.Progress.{Responsive, progress, pullers_of_pos}

module _ (m diff : Manifest) (Serves Puts : Str → Result Str → Type 0) where
  Run-Inv :
      {t : Pulling} {n : ℕ} → Run m Serves Puts (started m diff) n t → Inv m diff Serves Puts t
  Run-Inv still = started-Inv m diff Serves Puts
  Run-Inv (onward r st) = Step-Inv m diff Serves Puts st (Run-Inv r)

  -- If a pull of `diff` block by block, in which Put has not failed and which was not cancelled, can
  -- return without an error, then for every block of the manifest that `diff` lists the remote has
  -- served bytes that the local store took under the identifier of the block.
  pub pull_nil_sound :
      {t : Pulling} {n : ℕ}
      → Run m Serves Puts (started m diff) n t
      → Memᴰ none t.results
      → t.failures ≡ 0
      → t.ctx_done ≡ false
      → (id : Str) → Memᴰ id m.nodes
      → Memᴰ id diff.nodes
      → Stored m diff Serves Puts id
  pull_nil_sound r there fine open_ctx id listed lacking =
      elim ((Run-Inv r).sound (total_pos nil there (omega arith))) [
        | inl all ↦ (Run-Inv r).stored id (all id listed lacking)
        | inr (inl failed) ↦ absurd (omega (arith, failed, fine))
        | inr (inr gone) ↦ absurd (cc)
      ]

  -- A pull that goes on until there is something to return.
  abbrev pub Ends : Pulling → Type 0
  Ends s = (k : ℕ) × (t : Pulling) × (e : Option Error) × Run m Serves Puts s k t × Memᴰ e t.results

  before :
      {s t u : Pulling} {k : ℕ}
      → Step m Serves Puts s t
      → Run m Serves Puts t k u
      → Run m Serves Puts s (suc k) u
  before st still = onward still st
  before st (onward r last) = onward (before st r) last

  module _ (live : Responsive m diff Serves Puts) (d : Str) (wanted : Memᴰ d diff.nodes) where
    ends : (fuel : ℕ) (s : Pulling) → measure s < fuel → Inv m diff Serves Puts s → Ends s
    ends zero s small inv = absurd (omega arith)
    ends (suc fuel) s small inv = elim (List-cases s.results) [
      | inr (e, rest, there) ↦ (0, s, e, still, rw there (Memᴰ.head refl))
      | inl waits ↦
          let (t, st) = progress m diff Serves Puts live d wanted s inv waits in
          let less = Step-measure m Serves Puts st in
          let (k, u, e, r, there) =
            ends fuel t (omega (arith, less)) (Step-Inv m diff Serves Puts st inv) in
          (suc k, u, e, before st r, there)
    ]

    -- Where the remote and the store answer each call and do not panic, and a block is missing: from
    -- every state that a pull reaches, cancelled or not, it can go on to a state where it returns.
    pub pull_returns : {s : Pulling} {n : ℕ} → Run m Serves Puts (started m diff) n s → Ends s
    pull_returns {s} r = ends (suc (measure s)) s (omega arith) (Run-Inv r)

  -- Where `h` is the first block that is missing, the remote serves bytes for it and the store
  -- cannot take them, a pull can return without an error, though it has stored no block at all.
  pub pull_lost :
      (h raw : Str) (rest : List Str) (e : Error)
      → diff.nodes ≡ h ∷ rest
      → Serves h (ok raw)
      → Puts raw (err e)
      → (t : Pulling) × Run m Serves Puts (started m diff) 3 t
        × Memᴰ none t.results
        × (t.taken ≡ [])
  pull_lost h raw rest e first_one serves fails =
      let there : Memᴰ h diff.nodes = rw first_one (Memᴰ.head refl) in
      let asked = onward still (ask first_one (pullers_of_pos diff h there)) in
      let got = onward asked (get first serves) in
      (_, onward got (put_failed first refl fails), Memᴰ.head refl, refl)
