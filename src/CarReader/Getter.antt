-- ===== src/CarReader/Getter.antt =====
-- node_getter.go with dsync/stream.go: an archive of a manifest, read from the NodeGetter of the
-- repository.
use mathlib.Core.List.{append-nil}
use dag.Base.{
  Bool, true, false, Perm, ◌⊎◌, inl, inr, ℕ, ◌<◌, ◌≡◌, refl, ap, Str, List, [], ◌∷◌, ◌++◌, length,
  map, Result, ok, err, panic, end_of_file,
}
use dag.Ipld.{Ipld, Node, node_id}
use dag.Manifest.{Manifest, root_cid}
use dag.CarReader.{Block, CarReader, reader_of, decode_all, new_manifest_car_reader}
use dag.CarReader.Bytes.{delivered, frames, ids, Started, read_all, read_all_lem}

-- `dag_get` is Get of the wrapped DAGService, and `frame` what carutil.LdWrite appends for a node.
module _ (lib : Ipld) (dag_get : lib.Cid → Result (Node lib)) (frame : Node lib → Str) where
  -- Get only passes the call on.
  abbrev pub get : lib.Cid → Result (Node lib)
  get id = dag_get id

  abbrev pub block_of : Node lib → Block
  block_of n = record { id = node_id lib n; frame = frame n }

  abbrev option_of : Result (Node lib) → Result Block
  option_of panic = panic
  option_of (err e) = err e
  option_of (ok n) = ok (block_of n)

  -- What the goroutine of GetMany sends, in its order. It never closes the channel.
  unfoldable pub get_many : List lib.Cid → List (Result Block)
  get_many [] = []
  get_many (id ∷ cids) = option_of (get id) ∷ get_many cids

  module _ (decode : Str → Result lib.Cid) (cast : lib.Cid → Result lib.Cid) where
    -- The texts name the nodes, and each of these can be had.
    pub data Served : List Str → List (Node lib) → Type 0 where
      all_served : Served [] []
      one_more :
          {s : Str} {n : Node lib} {texts : List Str} {nodes : List (Node lib)}
          → decode s ≡ ok n.cid
          → cast n.cid ≡ ok n.cid
          → node_id lib n ≡ s
          → dag_get n.cid ≡ ok n
          → Served texts nodes
          → Served (s ∷ texts) (n ∷ nodes)

    abbrev cids_of : List (Node lib) → List lib.Cid
    cids_of = map (λ n. n.cid)

    decoded :
        {texts : List Str} {nodes : List (Node lib)}
        → Served texts nodes
        → decode_all lib decode cast texts ≡ ok (cids_of nodes)
    unfolding decode_all
    decoded all_served = refl
    decoded (one_more read casts names got rest) = rw read (rw casts (rw (decoded rest) refl))

    got_many :
        {texts : List Str} {nodes : List (Node lib)}
        → Served texts nodes
        → get_many (cids_of nodes) ≡ delivered (map block_of nodes)
    unfolding get_many
    got_many all_served = refl
    got_many (one_more read casts names got rest) = rw got (rw (got_many rest) refl)

    ids_named :
        {texts : List Str} {nodes : List (Node lib)}
        → Served texts nodes
        → ids (map block_of nodes) ≡ texts
    ids_named all_served = refl
    ids_named (one_more {s} read casts names got rest) = rw names (ap (◌∷◌ s) (ids_named rest))

    started_for :
        (reports : Bool) (senders texts : List Str) (nodes : List (Node lib))
        → Served texts nodes
        → Started reports senders [] [] (map block_of nodes)
        → ((reports ≡ true) × Perm senders texts) ⊎ ((reports ≡ false) × (senders ≡ []))
    started_for true senders texts nodes served p =
        inl (refl, rw (← ids_named served) (rw (← append-nil senders) p))
    started_for false senders texts nodes served p = inr (refl, p)

    -- The nodes of a manifest decode to the identifiers of `nodes`, which the DAGService has, and the
    -- header can be written. Then NewManifestCARReader over a NodeGetter returns a reader; reading it
    -- in pieces of any size above 0, with more reads than the archive has bytes, gives the header and
    -- then the frames of the nodes in the order of the manifest, each once, and then io.EOF. With a
    -- `progCh` one goroutine was started for each node of the manifest, which sends its identifier,
    -- in no given order; without one, none was.
    pub manifest_archive :
        (header : lib.Cid → Result Str) (head : Str) (m : Manifest) (nodes : List (Node lib))
        (reports : Bool) (fuel n : ℕ)
        → Served m.nodes nodes
        → header (root_cid lib m) ≡ ok head
        → 0 < n
        → length (head ++ frames (map block_of nodes)) < fuel
        → (r : CarReader) × (last : CarReader) × (new_manifest_car_reader lib decode cast header
              get_many reports m
            ≡ ok r)
          × (read_all fuel n r ≡ (last, (head ++ frames (map block_of nodes), err end_of_file)))
          × (((reports ≡ true) × Perm last.senders m.nodes)
              ⊎ ((reports ≡ false) × (last.senders ≡ [])))
    unfolding new_manifest_car_reader
    manifest_archive header head m nodes reports fuel n served written pos enough =
        let r : CarReader = reader_of reports (get_many (cids_of nodes)) head [] in
        let (last, bytes, senders) =
          read_all_lem fuel n (map block_of nodes) r pos (got_many served) enough in
        (
          r,
          last,
          rw (decoded served) (rw written refl),
          bytes,
          started_for reports last.senders m.nodes nodes served senders,
        )
