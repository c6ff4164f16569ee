-- ===== src/Snapshot.antt =====
-- Content snapshots:
-- src/stock_content/adapters/postgres/repositories/snapshot_repository.py and the normalisation of
-- release provenance in domain/lineage.py. The proofs are in the modules below.
pub mod Closure
pub mod Heads
pub mod Json
pub mod Provenance
pub mod Identity
pub mod Save
