-- ===== src/Manifest/Build/Order.antt =====
-- The order of the nodes in a finished manifest.
use mathlib.Core.List.{append-nil}
use mathlib.Core.List.Perm
use dag.Base.{
  ℕ, ◌≡◌, ◌∙◌, sym, ap, Str, str_lt, List, arith, Perm, keys, length, length-map, length-Perm,
  take_all, drop_all,
}
use dag.Base.Sorting.{Sorting, Ordered, IsWeakOrder}
use dag.Manifest.Build.{MState, heavier, sort_nodes}

heavier-IsWeakOrder : (weights : List (Str × ℕ)) → IsWeakOrder (heavier weights)
heavier-IsWeakOrder weights = record {
  asymm = λ x y h. ground arith;
  chain = λ x y z h k. ground arith;
}

module _ (srt : Sorting) (st : MState) (consistent : keys st.sizes ≡ st.nodes) where
  open srt use {sort}

  -- Len() counts the sizes, and so all nodes: the second sort reaches the whole list.
  pub sort_nodes_all : sort_nodes srt st ≡ sort Str (heavier st.weights) (sort Str str_lt st.nodes)
  unfolding sort_nodes
  sort_nodes_all =
      let names = sort Str str_lt st.nodes in
      let n : length st.sizes ≡ length names =
        sym (length-map (λ e. e.0) st.sizes)
        ∙ ap length consistent
        ∙ sym (length-Perm (srt.sort_perm Str str_lt st.nodes)) in
      rw (n, take_all names, drop_all names, append-nil)

  pub sort_nodes-perm : Perm (sort_nodes srt st) st.nodes
  sort_nodes-perm = rw sort_nodes_all (
      Perm.trans (srt.sort_perm Str (heavier st.weights) (sort Str str_lt st.nodes))
        (srt.sort_perm Str str_lt st.nodes))

  pub sort_nodes-Ordered : Ordered (heavier st.weights) (sort_nodes srt st)
  sort_nodes-Ordered = rw sort_nodes_all (srt.sort_ordered Str _ _ (heavier-IsWeakOrder st.weights))
