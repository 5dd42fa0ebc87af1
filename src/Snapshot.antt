-- ===== src/Snapshot.antt =====
-- pkg/upstreamsync/snapshot: ClusterSnapshot, a file for each group of its methods.
pub mod Types
pub mod Extends
pub mod Transaction
pub mod Schedule
pub mod Template
pub mod Preempt
pub mod Feasible
