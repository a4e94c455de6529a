-- ===== src/Push/Whole.antt =====
-- A push from its start on, where it sends blocks one by one.
use dag.Base.{
  ℕ, ◌<◌, ◌≡◌, refl, inl, inr, Str, Bool-cases, false, Memᴰ, Option-cases, Result, ok, err, panic,
  List-cases,
}
use dag.Ipld.{Ipld, NodeGetter}
use dag.Manifest.{Manifest}
use dag.Protocol.{protocol_supports_dag_streaming}
use dag.Session.{Response}
use dag.Push.{Sending, started, Run, parallelism_of}
use dag.Push.Begin.{
  Push, Remote, Way, returns, block_by_block, push_do, push_versioned, push_session,
}
use dag.Push.Inv.{IsFair}
use dag.Push.Progress.{Responsive}
use dag.Push.Correct.{Ends, push_returns}

-- Where the blocks go one by one, there is one.
abbrev Asked : Str → Manifest → Way → Type 0
Asked sid diff way = way ≡ block_by_block sid diff → (d : Str) × Memᴰ d diff.nodes

Asked-returns : (sid : Str) (diff : Manifest) (r : Result (Unit {0})) → Asked sid diff (returns r)
Asked-returns sid diff r e = cc

Asked-blocks :
    (sid sid' : Str) (diff diff' : Manifest) (d : Str)
    → Memᴰ d diff'.nodes
    → Asked sid diff (block_by_block sid' diff')
Asked-blocks sid sid' diff diff' d there e = let same : diff' ≡ diff = cc in (d, rw (← same) there)

module _ (rem : Remote) (sid : Str) (diff : Manifest) where
  Asked-versioned :
      (sid' : Str) (diff' : Manifest) (version : Result Str) (d : Str)
      → Memᴰ d diff'.nodes
      → Asked sid diff (push_versioned rem sid' diff' version)
  Asked-versioned sid' diff' (err e) d there = Asked-returns sid diff (err e)
  Asked-versioned sid' diff' panic d there = Asked-returns sid diff panic
  Asked-versioned sid' diff' (ok proto_id) d there = elim (Option-cases rem.receive_blocks) [
    | inl e ↦ rw e (Asked-blocks sid sid' diff diff' d there)
    | inr (receive_blocks, e) ↦ elim (Bool-cases (protocol_supports_dag_streaming proto_id)) [
      | inl new ↦ rw e (rw new (Asked-returns sid diff _))
      | inr old ↦ rw e (rw old (Asked-blocks sid sid' diff diff' d there))
    ]
  ]

  Asked-session : (r : Result (Str × Manifest)) → Asked sid diff (push_session rem r)
  Asked-session (err e) = Asked-returns sid diff (err e)
  Asked-session panic = Asked-returns sid diff panic
  Asked-session (ok (sid', diff')) = elim (List-cases diff'.nodes) [
    | inl e ↦ rw e (Asked-returns sid diff (ok tt))
    | inr (d, rest, e) ↦
        let there : Memᴰ d diff'.nodes = rw e (Memᴰ.head refl) in
        rw e (Asked-versioned sid' diff' rem.protocol_version d there)
  ]

  -- A push whose Do comes to sending the blocks of `diff` one by one, for an info whose manifest has a
  -- node: where an answer of the remote names the block that was sent, unless it is an error, and an
  -- error comes with its reason, and where the library does not panic and the remote answers each
  -- block, then from every state that the push reaches without being cancelled it can go on to a
  -- state where it returns. So it is never stuck.
  pub push_do_returns :
      (snd : Push) (lib : Ipld) (ng : NodeGetter lib) (Answers : Str → Response → Type 0)
      (way : push_do rem snd ≡ block_by_block sid diff) (fair : IsFair Answers)
      (live : Responsive lib ng snd.manifest diff Answers)
      (peopled : 0 < parallelism_of snd.manifest) {s : Sending lib} {n : ℕ}
      → Run lib ng snd.manifest Answers (started lib snd.manifest diff) n s
      → s.ctx_done ≡ false
      → Ends lib ng snd.manifest diff Answers s
  unfolding push_do
  push_do_returns snd lib ng Answers way fair live peopled r live_ctx =
      let (d, wanted) =
        Asked-session (rem.new_receive_session snd.info snd.pin_on_complete snd.meta) way in
      push_returns lib ng snd.manifest diff Answers fair live peopled d wanted r live_ctx
