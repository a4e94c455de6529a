-- ===== src/Store.antt =====
-- store.go: the store of infos in memory. A call holds the lock from its start to its end, so it is
-- one step.
use dag.Base.{
  ◌≡◌, ◌⊎◌, inl, inr, Str, Str_discrete, Bool, true, false, [], none, some, Option-cases, Result,
  ok, err, Dict, lookup, insert, delete, lookup-insert, lookup-delete, info_not_found, arith, ◌≢◌,
}
use dag.Info.{Info}

-- MemInfoStore
abbrev pub Infos : Type 0
Infos = Dict Str Info

abbrev pub new_store : Infos
new_store = []

-- PutDAGInfo returns no error.
unfoldable pub put_info : Str → Info → Infos → Infos
put_info id di infos = insert Str_discrete id di infos

unfoldable pub dag_info : Str → Infos → Result Info
dag_info id infos = elim (lookup Str_discrete id infos) [
  | none ↦ err info_not_found
  | some info ↦ ok info
]

-- Returns whether there was an entry, with the store that is left.
unfoldable pub delete_info : Str → Infos → Bool × Infos
delete_info id infos = (
  elim (lookup Str_discrete id infos) [ none ↦ false | some _ ↦ true ],
  delete Str_discrete id infos,
)

-- PutDAGInfo and DeleteDAGInfo, as DAGInfo sees them, for any two keys: a stored info is found under
-- its key, a deleted one is not, and DAGInfo finds under any other key what it found before.
-- DeleteDAGInfo reports an entry exactly if DAGInfo found one before, and after PutDAGInfo it does.
pub store_lem :
    (infos : Infos) (id other : Str) (di : Info)
    → (dag_info id (put_info id di infos) ≡ ok di)
      × (dag_info id (delete_info id infos).1 ≡ err info_not_found)
      × (id ≢ other
          → (dag_info other (put_info id di infos) ≡ dag_info other infos)
            × (dag_info other (delete_info id infos).1 ≡ dag_info other infos))
      × ((((delete_info id infos).0 ≡ true) × ((found : Info) × (dag_info id infos ≡ ok found)))
          ⊎ (((delete_info id infos).0 ≡ false) × (dag_info id infos ≡ err info_not_found)))
      × ((delete_info id (put_info id di infos)).0 ≡ true)
unfolding put_info dag_info delete_info
store_lem infos id other di =
    let put_here = lookup-insert Str_discrete id id di infos in
    let put_there = lookup-insert Str_discrete id other di infos in
    let gone_here = lookup-delete Str_discrete id id infos in
    let gone_there = lookup-delete Str_discrete id other infos in
    (
      ground (arith, put_here),
      ground (arith, gone_here),
      λ differ. (ground (arith, put_there), ground (arith, gone_there)),
      elim (Option-cases (lookup Str_discrete id infos)) [
        | inl e ↦ inr (ground arith, ground arith)
        | inr (found, e) ↦ inl (ground arith, (found, ground arith))
      ],
      ground (arith, put_here),
    )
