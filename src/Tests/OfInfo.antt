-- ===== src/Tests/OfInfo.antt =====
-- Infos, labels and progresses on the sample.
use dag.Base.{◌≡◌, ◌↔◌, refl, Str, Str_discrete, bytes, [], ◌∷◌, Memᴰ, some, none, true}
use dag.Base.Int.{pos}
use dag.Manifest.{Manifest}
use dag.Info.{Info}
use dag.Completion.{new_completion, is_complete}
use dag.Completion.Laws.{transfer_complete, mark_all}
use dag.Tests.Sample.{names}

abbrev whole : Manifest
whole = record { links = (0, 1) ∷ (0, 2) ∷ (1, 3) ∷ (2, 4) ∷ (3, 5) ∷ []; nodes = names }

abbrev described : Info
described = record { manifest = some whole; labels = (bytes "leaf", pos 5) ∷ []; sizes = none }

abbrev lacking : Manifest
lacking = record { links = []; nodes = bytes "d" ∷ bytes "f" ∷ [] }

new_completion_runs : new_completion whole lacking ≡ 100 ∷ 100 ∷ 100 ∷ 0 ∷ 100 ∷ 0 ∷ []
unfolding new_completion Str_discrete
new_completion_runs = refl

transfer_complete_example :
    (is_complete (mark_all (bytes "f" ∷ bytes "d" ∷ []) whole (new_completion whole lacking))
      ≡ true)
    ↔ ((id : Str) → Memᴰ id names → Memᴰ id lacking.nodes → Memᴰ id (bytes "f" ∷ bytes "d" ∷ []))
transfer_complete_example = transfer_complete whole lacking (bytes "f" ∷ bytes "d" ∷ [])
