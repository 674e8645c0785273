-- ===== src/Dispatch.antt =====
-- console/internal/grpcserver/service_dispatch.go: which worker gets a command, and what becomes of it.
pub mod Defs
pub mod Pick
pub mod Route
pub mod Attempt
pub mod Run
pub mod Names
pub mod Fresh
pub mod Excluded
pub mod Settled
pub mod Tries
pub mod Room
pub mod Offers
pub mod Verdict
pub mod Renew
mod Examples
