-- ===== src/Pull/Whole.antt =====
-- A pull from its start on, where it asks for blocks one by one.
use mathlib.Core.List.Memᴰ
use dag.Base.{◌≡◌, false, Memᴰ}
use dag.Ipld.{Ipld}
use dag.Manifest.{Manifest}
use dag.Info.{Info}
use dag.Completion.{new_completion, is_complete}
use dag.Pull.Begin.{Pull, Way, block_by_block}

-- Where the blocks go one by one, they are those of the difference, and it is not complete.
abbrev Lacking : Manifest → Manifest → Way → Type 0
Lacking m diff way = way ≡ block_by_block m diff → is_complete (new_completion m diff) ≡ false
