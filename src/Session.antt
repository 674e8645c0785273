-- ===== src/Session.antt =====
-- console/internal/grpcserver/session_runtime.go: the console's side of a connected worker.
pub mod Defs
pub mod Pending
pub mod Recovery
pub mod Report
pub mod Slots
pub mod Inflight
pub mod Steps
pub mod Results
pub mod Closing
mod Examples
