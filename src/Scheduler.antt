-- ===== src/Scheduler.antt =====
-- pkg/upstreamsync/scheduler.go: one scheduling attempt for one pod, a file for each stage.
pub mod Types
pub mod Filters
pub mod Extenders
pub mod Prioritize
pub mod Fit
pub mod Attempt
pub mod Choice
pub mod Reverts
pub mod Returns
