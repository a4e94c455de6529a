-- ===== src/Completion.antt =====
-- The type Completion of dag.go, and the marking of a block that the transfers share.
pub mod Laws
pub mod Taken
use dag.Base.{
  ℕ, suc, ◌≡◌, Str, Str_discrete, Bool, true, false, List, [], ◌∷◌, length, replicate, ite, ◌==◌,
  if◌then◌else◌,
}
use dag.Manifest.{Manifest}

-- `[]uint16`, a number from 0 to 100 for each node of the manifest.
abbrev pub Completion : Type 0
Completion = List ℕ

-- `for i, h := range nodes { if h == hash { prog[i] = value } }`
unfoldable pub write_at : ℕ → Str → List Str → Completion → Completion
write_at value hash (h ∷ nodes) (p ∷ prog) =
    ite (Str_discrete h hash) value p ∷ write_at value hash nodes prog
write_at value hash nodes prog = prog

-- The second loop of NewCompletion.
unfoldable pub clear : List Str → List Str → Completion → Completion
unfolding write_at
clear [] nodes prog = prog
clear (miss ∷ missing) nodes prog = clear missing nodes (write_at 0 miss nodes prog)

unfoldable pub new_completion : Manifest → Manifest → Completion
unfolding clear
new_completion mfst missing = clear missing.nodes mfst.nodes (replicate (length mfst.nodes) 100)

-- What Push, Pull and the sessions do when a block has arrived.
unfoldable pub mark : Str → Manifest → Completion → Completion
unfolding write_at
mark hash m prog = write_at 100 hash m.nodes prog

unfoldable pub completed_blocks : Completion → ℕ
completed_blocks [] = 0
completed_blocks (bl ∷ p) = let rest = completed_blocks p in if bl == 100 then suc rest else rest

unfoldable pub is_complete : Completion → Bool
is_complete [] = true
is_complete (bl ∷ p) = if bl == 100 then is_complete p else false
