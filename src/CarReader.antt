-- ===== src/CarReader.antt =====
-- dsync/stream.go: the reader that makes an archive of a manifest while it is read.
pub mod Bytes
pub mod Getter
use dag.Base.{
  ℕ, zero, suc, ◌+◌, ◌<◌, ◌≡◌, Str, List, [], ◌∷◌, ◌++◌, length, take, drop, Bool, true, false,
  Option, none, some, Result, Error, ok, err, panic, end_of_file, ltb, if◌then◌else◌, ◌>>=◌,
}
use dag.Ipld.{Ipld}
use dag.Manifest.{Manifest, root_cid}

-- A block that GetMany delivers: the text of its identifier, and what carutil.LdWrite appends for it.
pub record Block : Type 0 where
  pub id : Str
  pub frame : Str

-- mfstCarReader: what GetMany has yet to deliver for the identifiers from `i` on, the buffer, whether
-- there is a `progCh`, and the goroutines that were started to send to it, by the identifier that
-- each sends. Each sends when it is received from, so in no given order.
pub record CarReader : Type 0 where
  pub left : List (Result Block)
  pub buf : Str
  pub reports : Bool
  pub senders : List Str

-- `if str.progCh != nil { go … }`
abbrev pub with_sender : Bool → Str → List Str → List Str
with_sender true id senders = id ∷ senders
with_sender false id senders = senders

abbrev pub reader_of : Bool → List (Result Block) → Str → List Str → CarReader
reader_of reports left buf senders = record {
  left = left;
  buf = buf;
  reports = reports;
  senders = senders;
}

-- Read of `n` bytes, with the reader as it is afterwards; `reports` tells whether there is a
-- `progCh`. The loop goes on over `left`; an error of a block leaves what was buffered.
unfoldable pub read_from : Bool → ℕ → List (Result Block) → Str → List Str → CarReader × Result Str
read_from reports n [] [] senders = (reader_of reports [] [] senders, err end_of_file)
read_from reports n [] (b ∷ buf) senders =
    (reader_of reports [] (drop n (b ∷ buf)) senders, ok (take n (b ∷ buf)))
read_from reports n (panic ∷ left) buf senders =
    if ltb n (length buf)
    then (reader_of reports (panic ∷ left) (drop n buf) senders, ok (take n buf))
    else (reader_of reports left buf senders, panic)
read_from reports n (err e ∷ left) buf senders =
    if ltb n (length buf)
    then (reader_of reports (err e ∷ left) (drop n buf) senders, ok (take n buf))
    else (reader_of reports left buf senders, err e)
read_from reports n (ok b ∷ left) buf senders =
    let more = read_from reports n left (buf ++ b.frame) (with_sender reports b.id senders) in
    if ltb n (length buf)
    then (reader_of reports (ok b ∷ left) (drop n buf) senders, ok (take n buf))
    else more

abbrev pub read : ℕ → CarReader → CarReader × Result Str
read n r = read_from r.reports n r.left r.buf r.senders

-- What the loop over the nodes of NewManifestCARReader makes: `decode` is cid.Decode, and `cast` is
-- cid.Cast on the bytes of an identifier.
unfoldable pub decode_all :
    (lib : Ipld)
    → (Str → Result lib.Cid)
    → (lib.Cid → Result lib.Cid)
    → List Str
    → Result (List lib.Cid)
decode_all lib decode cast [] = ok []
decode_all lib decode cast (id ∷ ids) = do
  c ← decode id
  c' ← cast c
  cids ← decode_all lib decode cast ids
  ok (c' ∷ cids)

-- NewManifestCARReader: `header` is what car.WriteHeader writes for a root, `get_many` what the
-- channel of GetMany delivers, and `reports` whether `progCh` is not nil.
unfoldable pub new_manifest_car_reader :
    (lib : Ipld)
    → (Str → Result lib.Cid)
    → (lib.Cid → Result lib.Cid)
    → (lib.Cid → Result Str)
    → (List lib.Cid → List (Result Block))
    → Bool
    → Manifest
    → Result CarReader
unfolding decode_all
new_manifest_car_reader lib decode cast header get_many reports m = do
  cids ← decode_all lib decode cast m.nodes
  buf ← header (root_cid lib m)
  ok (reader_of reports (get_many cids) buf [])
