-- ===== src/Stream.antt =====
-- dsync/stream.go: AddAllFromCARReader, which puts the blocks of an archive into the block store.
use dag.Base.{Str, List, [], ◌∷◌, Option, none, some, Error}

-- What the archive reader and the block store answer: the error of NewCarReader, for each block that
-- Next returns the text of its identifier and the error of Put, and the error with which Next ends,
-- where `none` is io.EOF.
pub record Archive : Type 0 where
  pub opened : Option Error
  pub blocks : List (Str × Option Error)
  pub ending : Option Error

-- The loop: the identifiers that it sends to `progCh`, and its error.
unfoldable pub add_blocks : List (Str × Option Error) → Option Error → List Str × Option Error
add_blocks [] ending = ([], ending)
add_blocks ((id, none) ∷ blocks) ending = let (ids, e) = add_blocks blocks ending in (id ∷ ids, e)
add_blocks ((id, some e) ∷ blocks) ending = ([], some e)

unfoldable pub add_all_from_car_reader : Archive → List Str × Option Error
unfolding add_blocks
add_all_from_car_reader car = elim car.opened [
  | some e ↦ ([], some e)
  | none ↦ add_blocks car.blocks car.ending
]
