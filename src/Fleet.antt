-- ===== src/Fleet.antt =====
-- pkg/fleet: the registry of nodes, its store, enrolment, the monitor of stale nodes.
pub mod Sample
mod Tests
pub mod Types
pub mod Db
pub mod Along
pub mod Nodes
pub mod Tokens
pub mod Reports
pub mod Remediations
pub mod Summary
pub mod Enrollment
pub mod Monitor
