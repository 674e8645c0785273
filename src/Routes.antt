-- ===== src/Routes.antt =====
-- console/internal/grpcserver/terminal_session_routes.go: which worker has which terminal session.
pub mod Defs
pub mod Reserve
pub mod Commit
pub mod Sweep
pub mod Views
pub mod Recover
pub mod Report
pub mod Index
pub mod Kept
pub mod Leased
pub mod Bulk
pub mod Recovered
pub mod Steps
pub mod Spec
pub mod Refines
pub mod Confirms
pub mod Runs
pub mod ByNode
pub mod Shared
pub mod Hazards
mod Examples
