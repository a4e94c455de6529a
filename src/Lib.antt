-- ===== src/Lib.antt =====
-- A model of dag and dsync: manifests of Merkle DAGs, and the transfer of DAGs between two stores.
--
-- A manifest (dag.go) lists the identifiers of the nodes of a DAG and its links as pairs of
-- indexes. NewManifest walks the DAG through a node getter. An Info adds sizes and labels;
-- sub_info.go cuts the part below one node out of it, and store.go keeps infos. compare.go asks
-- a getter which nodes of a manifest it lacks, and a Completion tracks how many of those have
-- come. On the receiving side dsync/dsync.go opens a session (dsync/session.go) for the missing
-- blocks, marks each that comes, and finalises the session when the Completion is full: it
-- checks, stores the info, pins the root, calls a hook and drops the session. The sender asks
-- for a session and sends the missing blocks one by one (dsync/push.go) or as one archive
-- (dsync/stream.go); a pull (dsync/pull.go) asks for blocks and stores them. The two sides meet
-- over HTTP (dsync/http.go) or libp2p (dsync/p2p.go). A plugin puts a Dsync into IPFS, and a
-- command line talks to it (dsync/dsync_ipfs_plugin).
--
--   Base         strings as lists of bytes, maps as association lists, results with panics, lists
--   Ipld, Graph  what is taken from go-cid and go-ipld-format, as parameters; reachability in a DAG
--   Manifest     dag.go: Manifest, RootCID, IDIndex
--   Manifest/Build and its children
--                dag.go: NewManifest, mstate, makeManifest, addNode, the two sorts
--   Info         dag.go: Info, NewInfo, AddLabel, AddLabelByID
--   SubDag       sub_info.go: subDAGGenerator, InfoAtIndex, InfoAtID, InfoAtLabel; SubDag/OfDag
--                puts NewInfo and InfoAtIndex together
--   Missing      compare.go: Missing
--   Completion   dag.go: NewCompletion, CompletedBlocks, Complete; the loop that marks a block
--   Store        store.go: MemInfoStore
--   Session      dsync/session.go: newSession, ReceiveBlock, IsFinalizedOnce, and in Session/Names
--                randStringBytesMask
--   Stream       dsync/stream.go: AddAllFromCARReader
--   Service      dsync/dsync.go: NewReceiveSession, ReceiveBlock, finalizeReceive, and in
--                Service/Replies what ReceiveBlock answers; in Service/Queries GetDagInfo and
--                RemoveCID, in Service/Stream ReceiveBlocks, in Service/Config New, in
--                Service/Serving StartRemote, in Service/Remotes syncableRemote, NewPush, NewPull,
--                GetBlock and OpenBlockStream
--   Service/Overlap
--                dsync/dsync.go, dsync/session.go: calls of ReceiveBlock for one session that overlap
--   Push         dsync/push.go: Push.do where it sends block by block. A step is one step of one of
--                its goroutines. Push/Begin has what Do does before, and Push/ToService puts a Dsync
--                at the other end
--   Pull         dsync/pull.go: Pull.do where it asks block by block, in the same way, and in
--                Pull/Begin what Do does before
--   Protocol     dsync/stream.go: protocolSupportsDagStreaming, with what it uses of strconv.Atoi
--   CarReader    dsync/stream.go: NewManifestCARReader and mfstCarReader; in CarReader/Getter
--                node_getter.go: NodeGetter
--   P2p          dsync/p2putil/message.go: Message; in its children dsync/p2p.go: in P2p/Handlers the
--                handlers, in P2p/Loop handleStream, in P2p/Client p2pClient, and in P2p/Exchange
--                and P2p/Calls both together
--   Http         dsync/http.go: HTTPClient.ReceiveBlock and receiveBlockHTTP; in Http/Calls
--                ReceiveBlocks and RemoveCID; in Http/Server HTTPRemoteHandler, and in
--                Http/Sessions the other calls of HTTPClient
--   Plugin       dsync/dsync_ipfs_plugin/plugin.go: DsyncPlugin, its configuration and its allow list;
--                in Plugin/Commands the handlers for local commands, in Plugin/Cli
--                dsync/dsync_ipfs_plugin/cli/dsync.go
--   Tests        runs on small inputs, and the theorems at inputs that meet their hypotheses
--
-- Parameters. `Ipld` and `NodeGetter` stand for the libraries and the stores behind them; hooks,
-- PinAPI, the errors of PutDAGInfo and the answers of the block store's Put are arguments. `Sorting` is sort.Sort: it returns a
-- permutation in which no entry comes before a smaller one, and need not be stable. An index or size
-- that is never negative is a natural number; labels and the results of look-ups are integers. What
-- the source reads through a nil pointer or out of range is the result `panic`.
--
-- Fuel. The walk of NewManifest enters a node once, so more fuel than there are names of nodes
-- suffices, on cyclic input as well. Reading an archive to its end takes at most as many reads as it
-- has bytes, and one more. The loop that draws a name ends when its
-- draws have given enough letters. All other loops are structural.
--
-- Concurrency. A call of a store is one step. A call of a Dsync is one step, except in
-- Service/Overlap, where the calls of ReceiveBlock for one session interleave: a step ends where
-- ReceiveBlock of the session, Complete, IsFinalizedOnce or finalizeReceive returns. In a push
-- and a pull each goroutine is one step up to where it waits on a channel, and what waits is
-- kept in lists from which any entry may go on. What the remote and the stores answer is a
-- relation, so it may differ from call to call.
--
-- Not modelled: goroutines that only report progress, logging and deadlines; the connections of
-- net/http and the streams and hosts of libp2p. The codec (MarshalCBOR), NewLocalNodeGetter,
-- which asks the IPFS API for another API, and Percentage, which is floating-point arithmetic
-- for display, are left out.
mod Base
pub mod Ipld
pub mod Graph
pub mod Manifest
pub mod Info
pub mod Missing
pub mod Store
pub mod Session
pub mod Stream
pub mod Protocol
pub mod CarReader
pub mod Service
pub mod Push
pub mod Pull
pub mod P2p
pub mod Http
pub mod Completion
pub mod SubDag
pub mod Plugin
mod Tests
