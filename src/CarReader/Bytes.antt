-- ===== src/CarReader/Bytes.antt =====
-- The bytes that come out of the reader, in pieces of any size.
use mathlib.Core.List.{append_assoc, perm_middle}
use mathlib.Core.List.Perm
use dag.Base.{
  subst, take-append-drop, length-append, ◌⊎◌, ℕ, zero, suc, ◌<◌, ◌≡◌, refl, sym, ap, ◌∙◌, inl, inr,
  Str, List, [], ◌∷◌, ◌++◌, length, take, drop, Result, ok, err, panic, end_of_file, ltb, Bool,
  Bool-cases, true, false, Perm, arith,
}
use dag.CarReader.{Block, CarReader, reader_of, with_sender, read_from, read}

-- The blocks, as GetMany delivers them when it does not fail.
abbrev pub delivered : List Block → List (Result Block)
delivered [] = []
delivered (b ∷ blocks) = ok b ∷ delivered blocks

abbrev pub frames : List Block → Str
frames [] = []
frames (b ∷ blocks) = b.frame ++ frames blocks

abbrev pub ids : List Block → List Str
ids [] = []
ids (b ∷ blocks) = b.id ∷ ids blocks

abbrev prepend : Str → CarReader × (Str × Result Str) → CarReader × (Str × Result Str)
prepend piece (last, (rest, e)) = (last, (piece ++ rest, e))

abbrev after_read :
    CarReader × Result Str
    → (CarReader → CarReader × (Str × Result Str))
    → CarReader × (Str × Result Str)
after_read (r, ok piece) next = prepend piece (next r)
after_read (r, err e) next = (r, ([], err e))
after_read (r, panic) next = (r, ([], panic))

-- Reading `n` bytes at a time until there is an error: all that was read, and the error.
unfoldable pub read_all : ℕ → ℕ → CarReader → CarReader × (Str × Result Str)
read_all zero n r = (r, ([], ok []))
read_all (suc fuel) n r = after_read (read n r) (read_all fuel n)

-- Of the goroutines that send to `progCh`, `after` were started where `later` is still to come, from
-- `before` and `blocks` on: one for each block, in no given order, or none if there is no `progCh`.
abbrev pub Started : Bool → List Str → List Block → List Str → List Block → Type 0
Started true after later before blocks = Perm (after ++ ids later) (before ++ ids blocks)
Started false after later before blocks = after ≡ before

Started-same :
    (reports : Bool) (senders : List Str) (blocks : List Block)
    → Started reports senders blocks senders blocks
Started-same true senders blocks = Perm.refl (senders ++ ids blocks)
Started-same false senders blocks = refl

Started-cons :
    (reports : Bool) (after : List Str) (later : List Block) (before : List Str) (b : Block)
    (blocks : List Block)
    → Started reports after later (with_sender reports b.id before) blocks
    → Started reports after later before (b ∷ blocks)
Started-cons true after later before b blocks p =
    Perm.trans p (Perm.symm (perm_middle before (ids blocks)))
Started-cons false after later before b blocks p = p

Started-trans :
    (reports : Bool) (last : List Str) (mid : List Str) (later : List Block) (before : List Str)
    (blocks : List Block)
    → Started reports last [] mid later
    → Started reports mid later before blocks
    → Started reports last [] before blocks
Started-trans true last mid later before blocks p q = Perm.trans p q
Started-trans false last mid later before blocks p q = p ∙ q

-- What a read comes to where the bytes to come are `buf` and the frames of `blocks`.
abbrev Reads : Bool → ℕ → List Block → Str → List Str → Type 0
Reads reports n blocks buf senders =
    ((r : CarReader) × (read_from reports n (delivered blocks) buf senders ≡ (r, err end_of_file))
      × (buf ++ frames blocks ≡ [])
      × Started reports r.senders [] senders blocks)
    ⊎ ((r : CarReader) × (piece : Str) × (later : List Block) × (read_from reports n
            (delivered blocks) buf senders
          ≡ (r, ok piece))
        × (0 < length piece)
        × (r.left ≡ delivered later)
        × (piece ++ (r.buf ++ frames later) ≡ buf ++ frames blocks)
        × (r.reports ≡ reports)
        × Started reports r.senders later senders blocks)

length-take_pos : (n : ℕ) (x : ℕ) (xs : Str) → 0 < n → 0 < length (take n (x ∷ xs))
length-take_pos zero x xs h = absurd (omega arith)
length-take_pos (suc n) x xs h = omega arith

length-take_pos_of : (n : ℕ) (xs : Str) → 0 < n → ltb n (length xs) ≡ true → 0 < length (take n xs)
length-take_pos_of n [] h e = absurd (ground arith)
length-take_pos_of n (x ∷ xs) h e = length-take_pos n x xs h

rejoin : (n : ℕ) (buf rest : Str) → take n buf ++ (drop n buf ++ rest) ≡ buf ++ rest
rejoin n buf rest =
    sym (append_assoc (take n buf) (drop n buf) rest)
    ∙ ap (λ xs. xs ++ rest) (take-append-drop n buf)

read_from-Reads :
    (reports : Bool) (n : ℕ)
    → 0 < n
    → (blocks : List Block) (buf : Str) (senders : List Str) → Reads reports n blocks buf senders
unfolding read_from
read_from-Reads reports n pos [] [] senders =
    inl (reader_of reports [] [] senders, refl, refl, Started-same reports senders [])
read_from-Reads reports n pos [] (b ∷ buf) senders = inr (
  reader_of reports [] (drop n (b ∷ buf)) senders,
  take n (b ∷ buf),
  [],
  refl,
  length-take_pos n b buf pos,
  refl,
  rejoin n (b ∷ buf) [],
  refl,
  Started-same reports senders [],
)
read_from-Reads reports n pos (b ∷ blocks) buf senders = elim (Bool-cases (ltb n (length buf))) [
  | inl enough ↦ inr (
    reader_of reports (delivered (b ∷ blocks)) (drop n buf) senders,
    take n buf,
    b ∷ blocks,
    rw enough refl,
    length-take_pos_of n buf pos enough,
    refl,
    rejoin n buf (frames (b ∷ blocks)),
    refl,
    Started-same reports senders (b ∷ blocks),
  )
  | inr short ↦
      elim (read_from-Reads reports n pos blocks (buf ++ b.frame)
        (with_sender reports b.id senders)) [
          | inl (r, ran, empty, all) ↦ inl (
            r,
            rw (short, read_from) ran,
            sym (append_assoc buf b.frame (frames blocks)) ∙ empty,
            Started-cons reports r.senders [] senders b blocks all,
          )
          | inr (r, piece, later, ran, some_bytes, left, joined, same, all) ↦ inr (
            r,
            piece,
            later,
            rw (short, read_from) ran,
            some_bytes,
            left,
            joined ∙ append_assoc buf b.frame (frames blocks),
            same,
            Started-cons reports r.senders later senders b blocks all,
          )
        ]
]

-- NewManifestCARReader's reader, when no block fails: reading it in pieces of any size above 0 gives
-- the bytes that are buffered and then those of the blocks in the order in which they are delivered,
-- each once, and then io.EOF, with as many reads as there are bytes and one more. If there is a
-- `progCh`, then one goroutine was started for each block, which sends its identifier, in no given
-- order; otherwise none was.
pub read_all_lem :
    (fuel n : ℕ) (blocks : List Block) (r : CarReader)
    → 0 < n
    → r.left ≡ delivered blocks
    → length (r.buf ++ frames blocks) < fuel
    → (last : CarReader) × (read_all fuel n r ≡ (last, (r.buf ++ frames blocks, err end_of_file)))
      × Started r.reports last.senders [] r.senders blocks
unfolding read_all
read_all_lem zero n blocks r pos left small = absurd (omega arith)
read_all_lem (suc fuel) n blocks r pos left small =
    let reads = ap (λ xs. read_from r.reports n xs r.buf r.senders) left in
    let after = λ (x : CarReader × Result Str). after_read x (read_all fuel n) in
    elim (read_from-Reads r.reports n pos blocks r.buf r.senders) [
      | inl (r', ran, empty, all) ↦ (
        r',
        ap after (reads ∙ ran) ∙ ap (λ (bytes : Str). (r', (bytes, err end_of_file))) (sym empty),
        all,
      )
      | inr (r', piece, later, ran, some_bytes, left', joined, same, all) ↦
          let shorter : length (r'.buf ++ frames later) < fuel =
            omega (arith, ap length joined, length-append piece (r'.buf ++ frames later)) in
          let (last, rest, senders) = read_all_lem fuel n later r' pos left' shorter in
          (
            last,
            ap after (reads ∙ ran)
                ∙ ap (prepend piece) rest
                ∙ ap (λ (bytes : Str). (last, (bytes, err end_of_file))) joined,
            Started-trans r.reports last.senders r'.senders later r.senders blocks
                (subst (λ q. Started q last.senders [] r'.senders later) same senders) all,
          )
    ]
