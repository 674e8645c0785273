-- ===== src/Terminal.antt =====
-- worker/worker-docker/internal/runner/terminal_exec.go, session_recovery.go: the manager of the
-- terminal sessions, one container each.
pub mod Defs
pub mod Claim
pub mod Invariant
pub mod Preservation
pub mod Cleanup
pub mod Expiry
pub mod Janitor
pub mod Shutdown
pub mod Steps
pub mod Execute
pub mod Lease
pub mod Hazards
pub mod Swept
pub mod Capacity
pub mod Leases
pub mod Lifecycle
mod Examples
