-- ===== src/Tests.antt =====
-- Runs of the model on a small cluster, and the theorems at concrete inputs.
mod Cache
mod Cluster
mod Fixture
mod Events
mod Sessions
mod Answers
mod Attempts
mod Handles
mod Requests
mod Extenders
mod Hosts
mod Restore
mod Reports
mod Scores
mod Platform
mod Wiring
