-- ===== src/Tests.antt =====
-- Runs on small inputs, and each theorem with hypotheses at an input that meets them.
mod Insertion
mod Sample
mod OfManifest
mod OfSubDag
mod OfInfo
mod OfService
mod OfHttp
mod OfTransfers
mod OfPeers
mod OfOverlap
mod OfPlugin
mod OfNames
mod OfArchive
