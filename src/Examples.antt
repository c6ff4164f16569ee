-- ===== src/Examples.antt =====
-- Concrete inputs at which the theorems' hypotheses hold.
mod Queue
mod Effects
mod Pipeline
mod TaskRun
mod Outbox
mod Retention
mod Claims
mod Lifecycle
mod Conflict
mod Publication
mod Verification
mod Snapshot
