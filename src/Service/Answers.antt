-- ===== src/Service/Answers.antt =====
-- What a Dsync answers: blocks for an empty manifest, and infos from its store.
use dag.Base.{
  ap, ◌∙◌, ◌∷◌, ◌++◌, Memᴰ, ◌≡◌, get_elem?, Str, Str_discrete, List, [], none, some, ok, Dict,
  lookup-insert, ℕ, arith,
}
use dag.Base.Sorting.{Sorting}
use dag.Ipld.{Ipld, NodeGetter}
use dag.Manifest.{Manifest}
use dag.Manifest.Build.{done}
use dag.Completion.{new_completion}
use dag.Store.{Infos, put_info, dag_info}
use dag.Session.{Session, status_ok}
use dag.Service.{Settings, Service, receive_block}
use dag.Service.Queries.{get_dag_info}
use dag.Service.Finish.{Agrees, finished}
use dag.Service.Transfer.{Waiting, deliver, transfer_finalizes}

abbrev pub nodeless : List (ℕ × ℕ) → Manifest
nodeless links = record { links = links; nodes = [] }

-- The state that an end of the transfer leaves answers for the root.
get_dag_info-finished :
    (lib : Ipld) (ng : NodeGetter lib) (srt : Sorting) (fuel : ℕ) (c : Settings) (sid : Str)
    (m : Manifest) (root : Str) (rooted : get_elem? m.nodes 0 ≡ some root) (sess : Session)
    (ds : Service) (infos : Infos) (meta : Dict Str Str)
    → ds.info_store ≡ some infos
    → get_dag_info lib ng srt fuel c root meta (finished c sid m root rooted sess ds)
      ≡ done sess.info
unfolding get_dag_info dag_info put_info
get_dag_info-finished lib ng srt fuel c sid m root rooted sess ds infos meta has =
    let here = lookup-insert Str_discrete root root sess.info infos in
    rw (has, get_dag_info) (ground (arith, here))

-- The session of a transfer waits for blocks in a service with an info store; its manifest has a
-- first node, the root, and it has the progress that NewCompletion gives it; the final check and the
-- hook for completed transfers return no error for it, PutDAGInfo of the info store returns none, and
-- pinning works if it asks for it. The blocks `hashes` are delivered and then `last`, which is
-- missing and not among them, and with which every missing block has come. After the call of
-- ReceiveBlock for `last`, which answers ok, GetDagInfo answers for the root with the info of the
-- session, whatever is in the local DAG and whatever its check for such requests says.
pub get_dag_info-deliver :
    (lib : Ipld) (ng : NodeGetter lib) (srt : Sorting) (fuel : ℕ) (c : Settings) (sid : Str)
    (m : Manifest) (root : Str) (rooted : get_elem? m.nodes 0 ≡ some root) (sess : Session)
    (ds : Service) (infos : Infos) (meta : Dict Str Str)
    → Waiting lib c sid m root rooted sess ds
    → Agrees c sid m root rooted sess
    → sess.prog ≡ new_completion m sess.diff
    → ds.info_store ≡ some infos
    → (hashes : List Str) (last : Str) → Memᴰ last m.nodes
    → Memᴰ last sess.diff.nodes
    → ¬ Memᴰ last hashes
    → ((id : Str) → Memᴰ id m.nodes → Memᴰ id sess.diff.nodes → Memᴰ id (hashes ++ last ∷ []))
    → (before : Service) × (after : Service) × (deliver lib c sid m root rooted hashes ds
        ≡ ok before)
      × (receive_block lib c sid last (ok last) before
          ≡ ok (record { hash = last; status = status_ok; error = none }, after))
      × (get_dag_info lib ng srt fuel c root meta after ≡ done sess.info)
unfolding get_dag_info
get_dag_info-deliver lib ng srt fuel c sid m root rooted sess ds infos meta w agrees begun has
      hashes last listed lacking absent all =
    let (before, after, ran, _, _, ended, _, (same, _)) =
      transfer_finalizes lib c sid m root rooted sess ds w agrees begun hashes last listed lacking
        absent all in
    (
      before,
      after,
      ran,
      ended,
      ap (get_dag_info lib ng srt fuel c root meta) same
          ∙ get_dag_info-finished lib ng srt fuel c sid m root rooted sess ds infos meta has,
    )
